-- ===== src/Collector.antt =====
-- `handle_request` of src/collector.rs.
pub mod Fetch
pub mod Listen
mod Tests
use liberdus_proxy.Prelude.{Text, codes}
use liberdus_proxy.Config.{Config}
use liberdus_proxy.Http.Peer.{Exchange, Client, Reply, strip_request, relay_exchange}

-- The server is the collector of the settings; `serve` is what it does with a request.
unfoldable pub handle_request : (Text → Exchange) → Client → Config → Text → Reply
handle_request serve client config request_buffer =
    relay_exchange client config (codes "collector api server")
      (serve (strip_request request_buffer))
