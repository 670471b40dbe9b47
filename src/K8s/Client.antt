-- ===== src/K8s/Client.antt =====
-- internal/k8s/client.go: the construction of the client. rest.InClusterConfig and kubernetes.NewForConfig
-- are the record `ClientGo`; a client is its clientset, since the logger is left out.
use muthur_collector.Prelude.{text}
use muthur_collector.Prelude.Result.{Result, ◌>>=◌}
use muthur_collector.Errors.{Error}
use muthur_collector.Auth.Crypto.{context}
use muthur_collector.K8s.{Clientset}

pub record ClientGo (RestConfig : Type 0) : Type 0 where
  pub in_cluster_config : Result Error RestConfig
  pub new_for_config : RestConfig → Result Error Clientset

unfoldable pub new_k8s_client : {RestConfig : Type 0} → ClientGo RestConfig → Result Error Clientset
new_k8s_client go = do
  config ← context (text "in-cluster config") go.in_cluster_config
  context (text "create clientset") (go.new_for_config config)
