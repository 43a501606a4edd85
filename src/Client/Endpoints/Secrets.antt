-- ===== src/Client/Endpoints/Secrets.antt =====
-- dashboard/src/shared/Secret.ts: the endpoints of secrets.
use Prim.Native.String.{◌++◌}
use installer.Common.{String, List}
use installer.Types.{Json, str, obj, end, prop, Secret}
use installer.Shared.Url.Api.{k8s_secrets, k8s_secret}
use installer.Client.Page.{Run}
use installer.Client.Platform.{secret_reply, secrets_reply, Platform}
use installer.Client.Http.{request, get_at, post_at}

module _ (x : Platform) where
  -- `JSON.stringify(dockercfg)`
  unfoldable pub docker_config : (user password email server : String) → String
  docker_config user password email server = x.stringify (
      obj (
        prop "auths"
          (obj (
            prop server
              (obj (
                prop "username" (str user) (
                  prop "password" (str password) (
                    prop "email" (str email)
                      (prop "auth" (str (x.btoa (user ++ (":" ++ password)))) end)))))
              end))
          end))

  unfoldable pub pull_secret_body : (name user password email server : String) → Json
  unfolding docker_config
  pull_secret_body name user password email server = obj (
      prop "apiVersion" (str "v1") (
        prop "stringData"
          (obj (prop ".dockerconfigjson" (str (docker_config user password email server)) end))
          (prop "kind" (str "Secret") (
            prop "metadata" (obj (prop "name" (str name) end))
              (prop "type" (str "kubernetes.io/dockerconfigjson") end)))))

module _ (x : Platform) (uri : String) where
  unfoldable pub get_secret : (cluster namespace name : String) → Run Secret
  unfolding request k8s_secret
  get_secret cluster namespace name =
      get_at x uri secret_reply (k8s_secret x.encode cluster namespace name)

  unfoldable pub list_secrets : (cluster namespace field_selector : String) → Run (List Secret)
  unfolding request k8s_secrets
  list_secrets cluster namespace field_selector =
      get_at x uri secrets_reply (k8s_secrets x.encode cluster namespace field_selector)

  unfoldable pub create_pull_secret :
      (cluster name user password email server namespace : String) → Run Secret
  unfolding request k8s_secrets pull_secret_body
  create_pull_secret cluster name user password email server namespace =
      post_at x uri secret_reply (k8s_secrets x.encode cluster namespace "")
        (pull_secret_body x name user password email server)
