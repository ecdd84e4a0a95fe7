-- ===== src/Torrent/Errors.antt =====
-- `handle_task_error` of src/torrent/torrent_engine.cpp. Which system errors an error code stands for,
-- and its value where it is one of libtorrent's, are parameters.
use download_wrapper.Base.{Bool, true, false, Option, none, some, List, [], ◌∷◌, if◌then◌else◌}
use download_wrapper.Text.{Text, utf8}
use download_wrapper.Api.{TaskStatus}
use download_wrapper.Manager.Task.{Task}

-- The conditions of `boost::system::errc` in the table.
pub data SystemErrc : Type 0 where
  no_space_on_device permission_denied read_only_file_system no_such_file_or_directory : SystemErrc
  io_error not_enough_memory timed_out connection_refused connection_reset : SystemErrc
  connection_aborted network_down network_unreachable host_unreachable not_connected : SystemErrc
  broken_pipe resource_unavailable_try_again interrupted : SystemErrc

-- The values of `lt::errors` that the switch names.
pub data TorrentErrc : Type 0 where
  no_memory duplicate_torrent file_collision file_too_short failed_hash_check : TorrentErrc
  timed_out timed_out_no_interest timed_out_inactivity timed_out_no_handshake : TorrentErrc
  timed_out_no_request torrent_is_no_dict torrent_info_no_dict : TorrentErrc
  torrent_file_parse_failed invalid_bencoding invalid_swarm_metadata : TorrentErrc
  torrent_missing_info torrent_missing_piece_length torrent_missing_name : TorrentErrc
  torrent_missing_pieces torrent_invalid_name torrent_invalid_length : TorrentErrc
  torrent_invalid_hashes no_files_in_torrent too_many_pieces_in_torrent : TorrentErrc
  mismatching_info_hash missing_info_hash_in_uri unsupported_url_protocol : TorrentErrc
  url_parse_error other : TorrentErrc

-- An error code: whether it is set, `error == make_error_condition(code)`, and its value where its
-- category is libtorrent's.
pub record ErrorCode : Type 0 where
  pub is_set : Bool
  pub is_condition : SystemErrc → Bool
  pub libtorrent : Option TorrentErrc

-- `system_errors`
abbrev pub system_errors : List (SystemErrc × Text × Bool)
system_errors =
    (SystemErrc.no_space_on_device, utf8 "磁盘空间不足", false)
    ∷ (SystemErrc.permission_denied, utf8 "没有文件访问权限", false)
    ∷ (SystemErrc.read_only_file_system, utf8 "保存位置为只读", false)
    ∷ (SystemErrc.no_such_file_or_directory, utf8 "文件或目录不存在", false)
    ∷ (SystemErrc.io_error, utf8 "文件读写失败", false)
    ∷ (SystemErrc.not_enough_memory, utf8 "内存不足", false)
    ∷ (SystemErrc.timed_out, utf8 "网络错误", true)
    ∷ (SystemErrc.connection_refused, utf8 "网络错误", true)
    ∷ (SystemErrc.connection_reset, utf8 "网络错误", true)
    ∷ (SystemErrc.connection_aborted, utf8 "网络错误", true)
    ∷ (SystemErrc.network_down, utf8 "网络错误", true)
    ∷ (SystemErrc.network_unreachable, utf8 "网络错误", true)
    ∷ (SystemErrc.host_unreachable, utf8 "网络错误", true)
    ∷ (SystemErrc.not_connected, utf8 "网络错误", false)
    ∷ (SystemErrc.broken_pipe, utf8 "网络错误", false)
    ∷ (SystemErrc.resource_unavailable_try_again, utf8 "下载失败", true)
    ∷ (SystemErrc.interrupted, utf8 "下载失败", true)
    ∷ []

-- The first entry of the table that the error matches.
unfoldable pub system_error : ErrorCode → List (SystemErrc × Text × Bool) → Option (Text × Bool)
system_error error [] = none
system_error error ((code, message, retryable) ∷ rest) =
    if error.is_condition code then some (message, retryable) else system_error error rest

module _ {Rate : Type 0} (zero : Rate) where
  abbrev pub with_message : Task Rate → Text → Task Rate
  with_message t message = record t { message = message }

  -- The switch over libtorrent's values.
  unfoldable pub torrent_error : Task Rate → TorrentErrc → Task Rate
  torrent_error t TorrentErrc.no_memory = with_message t (utf8 "内存不足")
  torrent_error t TorrentErrc.duplicate_torrent = with_message t (utf8 "任务已存在")
  torrent_error t TorrentErrc.file_collision = with_message t (utf8 "任务文件路径冲突")
  torrent_error t TorrentErrc.file_too_short = with_message t (utf8 "文件读写失败")
  torrent_error t TorrentErrc.failed_hash_check = record t { status = TaskStatus.fail }
  torrent_error t TorrentErrc.timed_out = record t {
    message = utf8 "网络错误";
    status = TaskStatus.fail;
  }
  torrent_error t TorrentErrc.timed_out_no_interest = with_message t (utf8 "网络错误")
  torrent_error t TorrentErrc.timed_out_inactivity = with_message t (utf8 "网络错误")
  torrent_error t TorrentErrc.timed_out_no_handshake = with_message t (utf8 "网络错误")
  torrent_error t TorrentErrc.timed_out_no_request = with_message t (utf8 "网络错误")
  torrent_error t TorrentErrc.missing_info_hash_in_uri = with_message t (utf8 "下载链接无效")
  torrent_error t TorrentErrc.unsupported_url_protocol = with_message t (utf8 "下载链接无效")
  torrent_error t TorrentErrc.url_parse_error = with_message t (utf8 "下载链接无效")
  torrent_error t TorrentErrc.other = t
  torrent_error t _ = with_message t (utf8 "种子文件无效")

  abbrev pub by_value : Task Rate → Option TorrentErrc → Task Rate
  by_value t none = t
  by_value t (some value) = torrent_error t value

  -- By the entry of the table, and where there is none by libtorrent's value.
  unfoldable pub classified : Task Rate → ErrorCode → Option (Text × Bool) → Task Rate
  unfolding torrent_error
  classified t error (some (message, retryable)) = record t {
    message = message;
    status = if retryable then TaskStatus.fail else TaskStatus.error;
  }
  classified t error none = by_value t error.libtorrent

  -- What an error makes of its task.
  unfoldable pub failed_task : Task Rate → ErrorCode → Task Rate
  unfolding classified system_error
  failed_task t error =
      let failed = record t {
        status = TaskStatus.error;
        message = utf8 "下载失败";
        download_rate = zero;
        upload_rate = zero;
        dirty = true;
      } in
      classified failed error (system_error error system_errors)
