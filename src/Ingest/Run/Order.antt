-- ===== src/Ingest/Run/Order.antt =====
-- The order of the requests of a whole run.
use charmstore_client.Base.{list_eq, nat_eq, int_eq, pair_eq}
use charmstore_client.Base.Dict.{Dict}
use charmstore_client.Ingest.Client.{Client}
use charmstore_client.Ingest.Run.Transfers.{Transfers}
