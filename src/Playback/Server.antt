-- ===== src/Playback/Server.antt =====
-- `dw_proxy_start`, `dw_proxy_stop`, `dw_proxy_get_url` and `dw_proxy_is_running`.
use download_wrapper.Base.{Bool, true, false, Option, none, some, [], ◌++◌, if◌then◌else◌}
use download_wrapper.Base.Int.{ℤ, pos, minus_one}
use download_wrapper.Api.{Protocol, is_torrent}
use download_wrapper.Text.{Text, codes, to_string}

-- `g_port`, `g_running`, and whether the acceptor, the context and the thread are there.
pub record Server : Type 0 where
  pub port : ℤ
  pub running : Bool
  pub acceptor : Bool
  pub io_context : Bool
  pub thread : Bool

abbrev pub stopped : Server
stopped = record {
  port = pos 0;
  running = false;
  acceptor = false;
  io_context = false;
  thread = false;
}

-- Where the start fails: the acceptor's constructor throws, or the thread's.
pub data StartFault : Type 0 where
  no_acceptor no_thread : StartFault

abbrev bound : ℤ → Server
bound port = record {
  port = port;
  running = true;
  acceptor = true;
  io_context = true;
  thread = true;
}

-- `dw_proxy_start`. `port` is the port that the system assigns.
unfoldable pub proxy_start : ℤ → Option StartFault → Server → ℤ × Server
proxy_start port fault s = if s.running then (s.port, s) else elim fault [
  | none ↦ (port, bound port)
  | some StartFault.no_acceptor ↦
      (minus_one, record s { port = pos 0; running = false; io_context = true })
  | some StartFault.no_thread ↦
      (minus_one, record s { port = pos 0; running = false; acceptor = true; io_context = true })
]

-- `dw_proxy_stop`
unfoldable pub proxy_stop : Server → Server
proxy_stop s = record s {
  running = false;
  acceptor = false;
  io_context = false;
  thread = false;
  port = pos 0;
}

-- `dw_proxy_is_running`
unfoldable pub proxy_is_running : Server → ℤ
proxy_is_running s = if s.running then pos 1 else pos 0

-- `dw_proxy_get_url`; a null pointer is `none`.
unfoldable pub proxy_get_url : Server → Option Text → Protocol → Option Text → ℤ → Text
unfolding to_string
proxy_get_url s (some client_id) protocol (some key) file_index =
    codes "http://127.0.0.1:"
    ++ to_string s.port
    ++ codes "/file?client_id="
    ++ client_id
    ++ codes "&type="
    ++ (if is_torrent protocol then codes "bt" else codes "http")
    ++ codes "&key="
    ++ key
    ++ codes "&file="
    ++ to_string file_index
proxy_get_url s none protocol key file_index = []
proxy_get_url s (some client_id) protocol none file_index = []
