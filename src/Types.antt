-- ===== src/Types.antt =====
-- dashboard/src/shared/types.ts: the data that the reducers keep. What no operation of the model
-- reads (a spec, a chart's templates, annotations) is an uninterpreted `Json` value.
mod Values
mod Charts
mod Apps
mod Kube
mod Repos
pub use Values.*
pub use Charts.*
pub use Apps.*
pub use Kube.*
pub use Repos.*
