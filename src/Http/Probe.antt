-- ===== src/Http/Probe.antt =====
-- `finalize_probing` of src/http/http_engine_impl.cpp: when the first byte of the body arrives, the
-- file gets its name, is created and is divided into parts.
use download_wrapper.Base.{
  Bool, true, false, Option, none, some, List, [], ◌∷◌, ◌++◌, map, set, ◌&&◌, if◌then◌else◌,
}
use download_wrapper.Base.Int.{ℤ, pos, leb_ℤ, ltb_ℤ, eqb_ℤ}
use download_wrapper.Text.{Text, is_empty, codes}
use download_wrapper.Http.Path.{join_path, parent_path, strip_extension}
use download_wrapper.Http.Part.{Part}
use download_wrapper.Http.Split.{split, whole_part}
use download_wrapper.Http.Task.{PartCtx, TaskCtx, new_part_ctx, failed}

-- What the file system answers. An error says whether `errno` is ENOSPC.
pub record Storage : Type 0 where
  -- `acquire_wrapper_name`, which is given the directory and the name
  pub acquire_wrapper_name : Text → Text → Text
  pub mkdir_recursive : Text → Bool
  pub open_error : Option Bool
  pub truncate_error : ℤ → Option Bool

-- `g_cfg.min_size_for_split` and `g_cfg.default_parts`
pub record SplitConfig : Type 0 where
  pub min_size_for_split : ℤ
  pub default_parts : ℤ

-- Content-Disposition, else the URL, else a fixed name.
unfoldable pub chosen_name : Text → Text → Text
chosen_name filename by_url =
    if is_empty filename then (if is_empty by_url then codes "download" else by_url) else filename

abbrev pub storage_failed : TaskCtx → Bool → TaskCtx
storage_failed t no_space = failed t (if no_space then "存储空间不足" else "存储异常，无法保存文件")

-- The fields of `part_ctx[0]` that the division resets.
abbrev fresh_ctx : PartCtx → PartCtx
fresh_ctx c = record c {
  seen_total_size = pos 0;
  seen_etag = [];
  seen_last_modified = [];
  seen_http_code = pos 0;
  retry_count = pos 0;
}

abbrev fresh_first : List PartCtx → List PartCtx
fresh_first [] = []
fresh_first (c ∷ cs) = fresh_ctx c ∷ cs

abbrev pub put_parts : TaskCtx → List Part → TaskCtx
put_parts t [] = t
put_parts t (p ∷ ps) = record t {
  parts = set t.parts 0 p ++ ps;
  part_ctx = fresh_first t.part_ctx ++ map (λ (q : Part). new_part_ctx q.index) ps;
}

abbrev pub whole_first : List Part → ℤ → List Part
whole_first [] total = []
whole_first (p ∷ ps) total = whole_part total p ∷ ps

-- The division of the file, by the status of the response.
unfoldable pub divided : SplitConfig → ℤ → TaskCtx → TaskCtx
unfolding split whole_part
divided cfg code t =
    if eqb_ℤ code (pos 206)
    then put_parts (record t { support_range = true })
        (split cfg.min_size_for_split cfg.default_parts t.total_size)
    else record t { support_range = false; parts = whole_first t.parts t.total_size }

-- The creation of the file; the division follows if all went well.
unfoldable pub created : Storage → SplitConfig → ℤ → Text → TaskCtx → TaskCtx
unfolding divided
created fs cfg code dir t =
    if fs.mkdir_recursive dir
    then elim fs.open_error [
      | some no_space ↦ storage_failed t no_space
      | none ↦ elim (if ltb_ℤ (pos 0) t.total_size then fs.truncate_error t.total_size else none) [
        | some no_space ↦ storage_failed t no_space
        | none ↦ divided cfg code t
      ]
    ]
    else failed t "目录创建失败"

-- `by_url` is `extract_filename_from_url(tCtx->url)`. The wrapper directory is the name without its
-- extension, made unique; the full path is never empty here, as the name is not.
unfoldable pub finalize_probing : Storage → SplitConfig → Text → TaskCtx → PartCtx → TaskCtx
unfolding created chosen_name join_path strip_extension parent_path
finalize_probing fs cfg by_url t c =
    let raw_name = chosen_name t.filename by_url in
    let unique = fs.acquire_wrapper_name t.output_path (strip_extension raw_name) in
    let full_path = join_path (join_path t.output_path unique) raw_name in
    created fs cfg c.seen_http_code (parent_path full_path) (record t {
      probing = false;
      total_size =
          if leb_ℤ t.total_size (pos 0) && ltb_ℤ (pos 0) c.seen_total_size
          then c.seen_total_size
          else t.total_size;
      filename = raw_name;
      full_file_path = full_path;
    })
