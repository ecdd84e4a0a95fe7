-- ===== src/Playback/Session.antt =====
-- The members of `session`, and the answers that it sends.
use Prim.Native.String.{String}
use download_wrapper.Base.{Bool, false, Option, none, []}
use download_wrapper.Base.Int.{ℤ, pos, minus_one}
use download_wrapper.Api.{Protocol}
use download_wrapper.Text.{Text}

-- The fields of the header of a response 206 that depend on the request.
pub record Header : Type 0 where
  pub content_range : Text
  pub content_length : ℤ

-- `body` is what the client has been sent behind the header.
pub record Session : Type 0 where
  pub client_id : Text
  pub natural_key : Text
  pub protocol : Protocol
  pub file_index : ℤ
  pub range_start : ℤ
  pub range_end : ℤ
  pub total_size : ℤ
  pub file_path : Text
  pub header_sent : Bool
  pub header : Option Header
  pub body : Text

abbrev pub new_session : Session
new_session = record {
  client_id = [];
  natural_key = [];
  protocol = Protocol.http;
  file_index = pos 0;
  range_start = pos 0;
  range_end = pos 0;
  total_size = minus_one;
  file_path = [];
  header_sent = false;
  header = none;
  body = [];
}

-- `http::status`, of the responses that are no part of a stream
pub data HttpStatus : Type 0 where
  bad_request not_found internal_server_error : HttpStatus

-- What a session does next: transfers from a position on, has ended the response, has answered with
-- an error, or has stopped without one. A response 416 carries the size where it is known.
pub data Next : Type 0 where
  at : ℤ → Next
  finished : Next
  send_error : HttpStatus → String → Next
  send_range_error : Option ℤ → Next
  closed : Next
