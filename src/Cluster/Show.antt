-- ===== src/Cluster/Show.antt =====
-- showCCECluster of pkg/cloud/services/cce/cluster.go, and the 404 test that the services share.
use cluster_api_provider_cce.Prelude.{String, Bool, false, Option, none, some, eqb}
use cluster_api_provider_cce.Errors.{Error, service_response, wrapped}
use cluster_api_provider_cce.Go.{if◌then◌else◌, pure, raise, call, catch, ◌>>=◌}
use cluster_api_provider_cce.Call.{Call, CpM}
use cluster_api_provider_cce.Sdk.{ShowClusterResponse}
use cluster_api_provider_cce.Service.{Service}

-- `e, ok := err.(*sdkerr.ServiceResponseError); ok && e.StatusCode == 404`
unfoldable pub is_404 : Error → Bool
is_404 (service_response status code) = eqb status 404
is_404 _ = false

module _ {W C : Type 0} (svc : Service W) where
  -- A cluster that is not there is no error.
  unfoldable pub missing_cluster : Error → CpM W C (Option ShowClusterResponse)
  missing_cluster e = if is_404 e then pure none else raise (wrapped "failed to show cluster" e)

  unfoldable pub show_cce_cluster : String → CpM W C (Option ShowClusterResponse)
  show_cce_cluster id =
      catch
        (do response ← call (Call.show_cluster id) (svc.cce.show_cluster id); pure (some response))
        missing_cluster
