-- ===== src/Torrent/Files/Sound.antt =====
-- What every entry of the list keeps: its segments are in order, apart and within the file, and its
-- bytes done are at least those of the segments and at most the size.
use download_wrapper.Base.{
  ℕ, zero, suc, ◌≤◌, ◌≡◌, refl, sym, ap, subst, ◌∙◌, inl, inr, true, false, Option, none, some,
  List, [], ◌∷◌, map, All, ltb, Bool-cases, if_intro, if◌then◌else◌, get_elem?, arith,
}
use download_wrapper.Base.Int.{ℤ, pos, negsuc, ltb_ℤ, eqb_ℤ, eq_of_parts}
use download_wrapper.Text.{Text}
use download_wrapper.Manager.TaskFile.{TaskFile}
use download_wrapper.Torrent.Segments.{Segment}
use download_wrapper.Torrent.Segments.Ordered.{IsGapped, bytes_in}
use download_wrapper.Torrent.Files.{
  Doubles, TorrentInfo, Snapshot, clamp, to_ℤ, blank, edit_entry, alter_entry, described, counted,
  rated, prioritized, parsed_file, parsed_files,
}

module _ {Rate : Type 0} (info : TorrentInfo) where
  -- An entry for index `i`, whether or not its size is known.
  pub record IsCounted (i : ℕ) (f : TaskFile Rate) : Type 0 where
    pub done : ℕ
    pub ranges : List Segment
    pub index_is : f.file_index ≡ pos i
    pub done_is : f.total_done ≡ pos done
    pub ranges_are : f.segments ≡ map to_ℤ ranges
    pub gapped : IsGapped 0 ranges (info.file_size i)
    pub held : bytes_in ranges ≤ done
    pub within : done ≤ info.file_size i

  pub record IsSound (f : TaskFile Rate) : Type 0 where
    pub index : ℕ
    pub size_is : f.total_size ≡ pos (info.file_size index)
    pub counts : IsCounted index f

  -- It is a matter of three fields.
  IsCounted-move :
      (i : ℕ) (f g : TaskFile Rate)
      → f.file_index ≡ g.file_index
      → f.total_done ≡ g.total_done
      → f.segments ≡ g.segments
      → IsCounted i f
      → IsCounted i g
  IsCounted-move i f g same_index same_done same_segments c = record {
    done = c.done;
    ranges = c.ranges;
    index_is = sym same_index ∙ c.index_is;
    done_is = sym same_done ∙ c.done_is;
    ranges_are = sym same_segments ∙ c.ranges_are;
    gapped = c.gapped;
    held = c.held;
    within = c.within;
  }

  module _ (doubles : Doubles Rate) where
    blank-IsCounted : (i : ℕ) → IsCounted i (blank doubles i)
    blank-IsCounted i = record {
      done = 0;
      ranges = [];
      index_is = refl;
      done_is = refl;
      ranges_are = refl;
      gapped = tt;
      held = omega arith;
      within = omega arith;
    }

    described-IsCounted :
        (info_hash : Text) (seen : Snapshot) (i : ℕ) (f : TaskFile Rate)
        → IsCounted i f
        → IsCounted i (described doubles info_hash info seen i f)
    described-IsCounted info_hash seen i f c =
        IsCounted-move i f (described doubles info_hash info seen i f) refl refl refl c

    clamp-pos : (x : ℤ) (n : ℕ) → (d : ℕ) × (clamp x (pos 0) (pos n) ≡ pos d) × (d ≤ n)
    clamp-pos (pos a) n = (if ltb n a then n else a, ground arith, ground arith)
    clamp-pos (negsuc a) n = (0, ground arith, omega arith)

    not_fewer : {x y : ℤ} {m n k : ℕ} → x ≡ pos m → y ≡ pos n → ltb_ℤ x y ≡ false → k ≤ n → k ≤ m
    not_fewer e e' h le = ground arith

    counted-IsCounted :
        (o : Option ℤ) (i : ℕ) (f : TaskFile Rate)
        → f.total_size ≡ pos (info.file_size i)
        → IsCounted i f
        → IsCounted i (counted doubles o f)
    counted-IsCounted none i f e c = c
    counted-IsCounted (some d) i f e c =
        let (total, total_is, le) = clamp-pos d (info.file_size i) in
        let done_is : clamp d (pos 0) f.total_size ≡ pos total =
          ap (λ z. clamp d (pos 0) z) e ∙ total_is in
        elim (Bool-cases (ltb_ℤ (clamp d (pos 0) f.total_size) f.total_done)) [
          | inl fewer ↦ record {
            done = total;
            ranges = [];
            index_is = c.index_is;
            done_is = done_is;
            ranges_are = rw fewer refl;
            gapped = tt;
            held = omega arith;
            within = le;
          }
          | inr more ↦ record {
            done = total;
            ranges = c.ranges;
            index_is = c.index_is;
            done_is = done_is;
            ranges_are = rw more c.ranges_are;
            gapped = c.gapped;
            held = not_fewer done_is c.done_is more c.held;
            within = le;
          }
        ]

    rated-IsSound : (f : TaskFile Rate) → IsSound f → IsSound (rated doubles f)
    rated-IsSound f s = record {
      index = s.index;
      size_is = s.size_is;
      counts = IsCounted-move s.index f (rated doubles f) refl refl refl s.counts;
    }

    prioritized-IsSound :
        (o : Option ℤ) (f : TaskFile Rate) → IsSound f → IsSound (prioritized doubles o f)
    prioritized-IsSound none f s = s
    prioritized-IsSound (some p) f s = record {
      index = s.index;
      size_is = s.size_is;
      counts = IsCounted-move s.index f (prioritized doubles (some p) f) refl refl refl s.counts;
    }

    total_size-counted :
        (o : Option ℤ) (f : TaskFile Rate) → (counted doubles o f).total_size ≡ f.total_size
    total_size-counted none f = refl
    total_size-counted (some d) f = refl

    -- `handle_parsed` makes an entry sound, whatever its size was.
    parsed_file-IsSound :
        (info_hash : Text) (seen : Snapshot) (i : ℕ) (f : TaskFile Rate)
        → IsCounted i f
        → IsSound (parsed_file doubles info_hash info seen i f)
    unfolding parsed_file
    parsed_file-IsSound info_hash seen i f c =
        let g = described doubles info_hash info seen i f in
        let o = get_elem? seen.progress i in
        prioritized-IsSound (get_elem? seen.priorities i) (rated doubles (counted doubles o g)) (
          rated-IsSound (counted doubles o g) (record {
            index = i;
            size_is = total_size-counted o g;
            counts = counted-IsCounted o i g refl (described-IsCounted info_hash seen i f c);
          }))

    pub same_index : {z : ℤ} {k i : ℕ} → z ≡ pos k → eqb_ℤ z (pos i) ≡ true → k ≡ i
    same_index e h = ground arith

    -- The entry that is found under an index is the one of that index.
    IsCounted-of_index :
        (i : ℕ) (f : TaskFile Rate) → eqb_ℤ f.file_index (pos i) ≡ true → IsSound f → IsCounted i f
    IsCounted-of_index i f e s =
        let same : s.index ≡ i = same_index s.counts.index_is e in
        subst (λ k. IsCounted k f) same s.counts

    edit_entry-IsSound :
        (info_hash : Text) (seen : Snapshot) (i : ℕ) (files : List (TaskFile Rate))
        → All IsSound files
        → All IsSound (edit_entry doubles i (parsed_file doubles info_hash info seen i) files)
    unfolding edit_entry
    edit_entry-IsSound info_hash seen i [] s =
        (parsed_file-IsSound info_hash seen i (blank doubles i) (blank-IsCounted i), tt)
    edit_entry-IsSound info_hash seen i (f ∷ fs) (s, ss) =
        let edit = parsed_file doubles info_hash info seen i in
        if_intro (All IsSound) (ltb_ℤ f.file_index (pos i)) (f ∷ edit_entry doubles i edit fs)
          (if eqb_ℤ f.file_index (pos i) then edit f ∷ fs else edit (blank doubles i) ∷ f ∷ fs)
          (λ e. (s, edit_entry-IsSound info_hash seen i fs ss))
          (λ e.
            if_intro (All IsSound) (eqb_ℤ f.file_index (pos i)) (edit f ∷ fs)
              (edit (blank doubles i) ∷ f ∷ fs)
              (λ same. (parsed_file-IsSound info_hash seen i f (IsCounted-of_index i f same s), ss))
              (λ other. (
                parsed_file-IsSound info_hash seen i (blank doubles i) (blank-IsCounted i),
                (s, ss),
              )))

    pub parsed_files-IsSound :
        (info_hash : Text) (seen : Snapshot) (rounds i : ℕ) (files : List (TaskFile Rate))
        → All IsSound files
        → All IsSound (parsed_files doubles info_hash info seen rounds i files)
    unfolding parsed_files
    parsed_files-IsSound info_hash seen zero i files s = s
    parsed_files-IsSound info_hash seen (suc rounds) i files s =
        let edited = edit_entry doubles i (parsed_file doubles info_hash info seen i) files in
        parsed_files-IsSound info_hash seen rounds (suc i)
          (if info.pad_file_at i then files else edited)
          (if_intro (All IsSound) (info.pad_file_at i) files edited (λ e. s)
            (λ e. edit_entry-IsSound info_hash seen i files s))

    -- A change of one entry that keeps it sound.
    pub alter_entry-IsSound :
        (i : ℕ) (edit : TaskFile Rate → TaskFile Rate) (files : List (TaskFile Rate))
        → ((f : TaskFile Rate) → f.file_index ≡ pos i → IsSound f → IsSound (edit f))
        → All IsSound files
        → All IsSound (alter_entry i edit files)
    unfolding alter_entry
    alter_entry-IsSound i edit [] keeps s = tt
    alter_entry-IsSound i edit (f ∷ fs) keeps (s, ss) =
        if_intro (All IsSound) (eqb_ℤ f.file_index (pos i)) (edit f ∷ fs)
          (f ∷ alter_entry i edit fs)
          (λ e. (keeps f (eq_of_parts f.file_index (pos i) (ground arith)) s, ss))
          (λ e. (s, alter_entry-IsSound i edit fs keeps ss))
