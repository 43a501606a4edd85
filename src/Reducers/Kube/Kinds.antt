-- ===== src/Reducers/Kube/Kinds.antt =====
-- dashboard/src/reducers/kube.ts, `initialKinds`: the kinds of Kubernetes v1.17.
use installer.Common.{String, Bool, true, false, [], ◌∷◌}
use installer.Common.Dict.{Dict}
use installer.Types.{Kind}

abbrev known_kind : (name api_version plural : String) → Bool → String × Kind
known_kind name api_version plural namespaced =
    (name, record { api_version = api_version; plural = plural; namespaced = namespaced })

unfoldable pub initial_kinds : Dict Kind
initial_kinds =
    known_kind "APIService" "apiregistration.k8s.io/v1" "apiservices" false
    ∷ known_kind "AppRepository" "kubeapps.com/v1alpha1" "apprepositories" true
    ∷ known_kind "Binding" "v1" "bindings" true
    ∷ known_kind "CSINode" "storage.k8s.io/v1" "csinodes" false
    ∷ known_kind "ClusterRole" "rbac.authorization.k8s.io/v1" "clusterroles" false
    ∷ known_kind "ClusterRoleBinding" "rbac.authorization.k8s.io/v1" "clusterrolebindings" false
    ∷ known_kind "ComponentStatus" "v1" "componentstatuses" false
    ∷ known_kind "ConfigMap" "v1" "configmaps" true
    ∷ known_kind "ControllerRevision" "apps/v1" "controllerrevisions" true
    ∷ known_kind "CustomResourceDefinition" "apiextensions.k8s.io/v1" "customresourcedefinitions"
        false
    ∷ known_kind "DaemonSet" "apps/v1" "daemonsets" true
    ∷ known_kind "Deployment" "apps/v1" "deployments" true
    ∷ known_kind "Endpoints" "v1" "endpoints" true
    ∷ known_kind "HorizontalPodAutoscaler" "autoscaling/v1" "horizontalpodautoscalers" true
    ∷ known_kind "Ingress" "extensions/v1beta1" "ingresses" true
    ∷ known_kind "Job" "batch/v1" "jobs" true
    ∷ known_kind "Lease" "coordination.k8s.io/v1" "leases" true
    ∷ known_kind "LimitRange" "v1" "limitranges" true
    ∷ known_kind "LocalSubjectAccessReview" "authorization.k8s.io/v1" "localsubjectaccessreviews"
        true
    ∷ known_kind "MutatingWebhookConfiguration" "admissionregistration.k8s.io/v1"
        "mutatingwebhookconfigurations" false
    ∷ known_kind "Namespace" "v1" "namespaces" false
    ∷ known_kind "NetworkPolicy" "networking.k8s.io/v1" "networkpolicies" true
    ∷ known_kind "Node" "v1" "nodes" false
    ∷ known_kind "PersistentVolume" "v1" "persistentvolumes" false
    ∷ known_kind "PersistentVolumeClaim" "v1" "persistentvolumeclaims" true
    ∷ known_kind "Pod" "v1" "pods" true
    ∷ known_kind "PodTemplate" "v1" "podtemplates" true
    ∷ known_kind "PriorityClass" "scheduling.k8s.io/v1" "priorityclasses" false
    ∷ known_kind "ReplicaSet" "apps/v1" "replicasets" true
    ∷ known_kind "ReplicationController" "v1" "replicationcontrollers" true
    ∷ known_kind "ResourceQuota" "v1" "resourcequotas" true
    ∷ known_kind "Role" "rbac.authorization.k8s.io/v1" "roles" true
    ∷ known_kind "RoleBinding" "rbac.authorization.k8s.io/v1" "rolebindings" true
    ∷ known_kind "Secret" "v1" "secrets" true
    ∷ known_kind "SelfSubjectAccessReview" "authorization.k8s.io/v1" "selfsubjectaccessreviews"
        false
    ∷ known_kind "SelfSubjectRulesReview" "authorization.k8s.io/v1" "selfsubjectrulesreviews" false
    ∷ known_kind "Service" "v1" "services" true
    ∷ known_kind "ServiceAccount" "v1" "serviceaccounts" true
    ∷ known_kind "StatefulSet" "apps/v1" "statefulsets" true
    ∷ known_kind "StorageClass" "storage.k8s.io/v1" "storageclasses" false
    ∷ known_kind "SubjectAccessReview" "authorization.k8s.io/v1" "subjectaccessreviews" false
    ∷ known_kind "TokenReview" "authentication.k8s.io/v1" "tokenreviews" false
    ∷ known_kind "ValidatingWebhookConfiguration" "admissionregistration.k8s.io/v1"
        "validatingwebhookconfigurations" false
    ∷ known_kind "VolumeAttachment" "storage.k8s.io/v1" "volumeattachments" false
    ∷ []
