-- ===== src/Ipc/Journal/Init/Owned.antt =====
-- What `KdbJournal::init` (ipc++/src/KdbType.C) leaves behind on every branch, and what it counts.
use mgkdb.Prelude.{
  ℕ, ◌^◌, ◌≤◌, ◌<◌, ◌≡◌, refl, ap, ◌∙◌, ◌⊎◌, inl, inr, Bool, true, false, ◌&&◌, Option, none, some,
  List, [], ◌∷◌, ◌++◌, length, length-append, take, ltb, ◌==◌, if◌then◌else◌, arith,
}
use mgkdb.Prelude.Int.{pos}
use mgkdb.Ipc.Types.{sz_msg_hdr}
use mgkdb.Ipc.Object.{Kdb}
use mgkdb.Ipc.Write.Encode.{encode}
use mgkdb.Ipc.Journal.Replay.{records, IsReplayable, filter_msgs-counter}
use mgkdb.Ipc.Journal.Init.{
  Options, Answers, InitError, made, unexpected, threw, unknown, Initialised, Filtered, filtered,
  fstat_error, mmap_error, not_filtered, record_error, filtered_of, filter_mapped, filter_fd,
  new_header, fail, journal, after_filter, count_upon_init, after_write, after_stat, after_open,
  init_journal,
}

module _ (o : Options) (a : Answers) where
  -- A journal holds the descriptor that was opened, an error means that it is closed, and an
  -- exception leaves it open.
  abbrev pub Owns : Initialised → Type 0
  Owns d = elim d.result [
    | made j ↦
        (d.is_open ≡ true)
        × ((fd : ℕ) × (a.opened ≡ some fd) × (j.m_jnl_fd ≡ pos fd))
        × (j.m_rd_only ≡ o.read_only)
    | unexpected e ↦ d.is_open ≡ false
    | threw ↦ (d.is_open ≡ true) × (o.validate_and_count_upon_init ≡ true)
    | unknown ↦ (d.is_open ≡ true) × (o.validate_and_count_upon_init ≡ true)
  ]

  -- Bytes are written only to an empty file, and only where it is not read only.
  abbrev pub Writes : Initialised → Type 0
  Writes d = (d.written ≡ []) ⊎ ((o.read_only ≡ false) × (a.sized ≡ some 0))

  Owns-journal : (fd n : ℕ) (w : List ℕ) → a.opened ≡ some fd → Owns (journal o fd n w)
  Owns-journal fd n w e = (refl, (fd, e, refl), refl)

  Owns-filter :
      (fd : ℕ) (w : List ℕ) (f : Filtered)
      → a.opened ≡ some fd
      → o.validate_and_count_upon_init ≡ true
      → Owns (after_filter o a fd w f) × ((after_filter o a fd w f).written ≡ w)
  Owns-filter fd w (filtered n u) e v = by_seek a.sought
    where
      by_seek :
          (s : Bool)
          → Owns (if s then journal o fd n w else fail InitError.lseek_failed w)
            × ((if s then journal o fd n w else fail InitError.lseek_failed w).written ≡ w)
      by_seek true = (Owns-journal fd n w e, refl)
      by_seek false = (refl, refl)
  Owns-filter fd w fstat_error e v = ((refl, v), refl)
  Owns-filter fd w mmap_error e v = ((refl, v), refl)
  Owns-filter fd w (record_error off) e v = ((refl, v), refl)
  Owns-filter fd w not_filtered e v = ((refl, v), refl)

  Owns-count :
      (fuel fd size : ℕ) (w : List ℕ)
      → a.opened ≡ some fd
      → Owns (count_upon_init fuel o a fd size w)
        × ((count_upon_init fuel o a fd size w).written ≡ w)
  unfolding count_upon_init
  Owns-count fuel fd size w e = by_options (ltb sz_msg_hdr size) o.validate_and_count_upon_init refl
    where
      by_options :
          (b v : Bool)
          → o.validate_and_count_upon_init ≡ v
          → Owns (
              if b && v
              then after_filter o a fd w (filter_fd fuel o.max_replay_count a)
              else journal o fd 0 w)
            × ((if b && v
                  then after_filter o a fd w (filter_fd fuel o.max_replay_count a)
                  else journal o fd 0 w).written
                ≡ w)
      by_options true true v = Owns-filter fd w (filter_fd fuel o.max_replay_count a) e v
      by_options true false v = (Owns-journal fd 0 w e, refl)
      by_options false b v = (Owns-journal fd 0 w e, refl)

  Owns-write :
      (fuel fd size : ℕ) (wrote : Option ℕ)
      → a.opened ≡ some fd
      → Owns (after_write fuel o a fd size wrote)
  Owns-write fuel fd size none e = refl
  Owns-write fuel fd size (some n) e = (Owns-count fuel fd size (take n new_header) e).0

  Owns-stat :
      (fuel fd : ℕ) (sized : Option ℕ)
      → a.opened ≡ some fd
      → a.sized ≡ sized
      → Owns (after_stat fuel o a fd sized) × Writes (after_stat fuel o a fd sized)
  Owns-stat fuel fd none e s = (refl, inl refl)
  Owns-stat fuel fd (some size) e s = by_mode o.read_only refl
    where
      counted' :
          Owns (count_upon_init fuel o a fd size []) × Writes (count_upon_init fuel o a fd size [])
      counted' = let c = Owns-count fuel fd size [] e in (c.0, inl c.1)

      by_header :
          (short : Bool)
          → Owns
              (if short then fail InitError.no_header [] else count_upon_init fuel o a fd size [])
            × Writes
                (if short then fail InitError.no_header [] else count_upon_init fuel o a fd size [])
      by_header true = (refl, inl refl)
      by_header false = counted'

      by_size :
          o.read_only ≡ false
          → (empty : Bool) → (size == 0) ≡ empty
          → Owns (
              if empty
              then after_write fuel o a fd size a.wrote
              else count_upon_init fuel o a fd size [])
            × Writes (
                if empty
                then after_write fuel o a fd size a.wrote
                else count_upon_init fuel o a fd size [])
      by_size w true z =
          let none_left : size ≡ 0 = ground (arith, z) in
          (Owns-write fuel fd size a.wrote e, inr (w, s ∙ ap some none_left))
      by_size w false z = counted'

      by_mode :
          (r : Bool)
          → o.read_only ≡ r
          → Owns (
              if r
              then (if ltb size sz_msg_hdr
                  then fail InitError.no_header []
                  else count_upon_init fuel o a fd size [])
              else if size == 0
              then after_write fuel o a fd size a.wrote
              else count_upon_init fuel o a fd size [])
            × Writes (
                if r
                then (if ltb size sz_msg_hdr
                    then fail InitError.no_header []
                    else count_upon_init fuel o a fd size [])
                else if size == 0
                then after_write fuel o a fd size a.wrote
                else count_upon_init fuel o a fd size [])
      by_mode true r = by_header (ltb size sz_msg_hdr)
      by_mode false r = by_size r (size == 0) refl

  -- Whatever the system calls answer: a journal that `init` returns holds the descriptor that was
  -- opened, which is open, and has the mode asked for; with an error the descriptor is closed;
  -- and only where messages are to be counted is there an exception, which leaves it open. Bytes are
  -- written only to an empty file that is not opened read only.
  pub init_journal_lem : (fuel : ℕ) → Owns (init_journal fuel o a) × Writes (init_journal fuel o a)
  unfolding init_journal
  init_journal_lem fuel = by_open a.opened refl
    where
      by_open :
          (opened : Option ℕ)
          → a.opened ≡ opened
          → Owns (after_open fuel o a opened) × Writes (after_open fuel o a opened)
      by_open none e = (refl, inl refl)
      by_open (some fd) e = Owns-stat fuel fd a.sized e refl

any_mode :
    (fuel fd size : ℕ) (o : Options) (a : Answers)
    → 8 < size
    → after_stat fuel o a fd (some size) ≡ count_upon_init fuel o a fd size []
any_mode fuel fd size o a h = by_mode o.read_only
  where
    by_mode :
        (r : Bool)
        → (if r
            then (if ltb size sz_msg_hdr
                then fail InitError.no_header []
                else count_upon_init fuel o a fd size [])
            else if size == 0
            then after_write fuel o a fd size a.wrote
            else count_upon_init fuel o a fd size [])
          ≡ count_upon_init fuel o a fd size []
    by_mode true = let long : ltb size 8 ≡ false = ground arith in rw long
    by_mode false = let more : (size == 0) ≡ false = ground arith in rw more

count_filtered :
    (fuel fd size n u : ℕ) (o : Options) (a : Answers)
    → 8 < size
    → o.validate_and_count_upon_init ≡ true
    → filter_fd fuel o.max_replay_count a ≡ filtered n u
    → a.sought ≡ true
    → count_upon_init fuel o a fd size [] ≡ journal o fd n []
unfolding count_upon_init
count_filtered fuel fd size n u o a h val f sought =
    let long : ltb 8 size ≡ true = ground arith in
    let go = λ (b : Bool).
      if b
      then after_filter o a fd [] (filter_fd fuel o.max_replay_count a)
      else journal o fd 0 [] in
    ap (λ b. go (b && o.validate_and_count_upon_init)) long
    ∙ ap go val
    ∙ ap (after_filter o a fd []) f
    ∙ ap (λ b. if b then journal o fd n [] else fail InitError.lseek_failed []) sought

-- Where the calls succeed and the file is eight bytes and then messages of the kinds that `ipcPayloadLen`
-- supports, `init` with counting gives a journal with the number of the messages, if the limit is
-- no less, and writes nothing.
pub init_journal-counts :
    (fuel fd : ℕ) (o : Options) (a : Answers) (head : List ℕ) (v : Kdb) (vs : List Kdb)
    → o.validate_and_count_upon_init ≡ true
    → a.opened ≡ some fd
    → a.sized ≡ some (length (head ++ records (v ∷ vs)))
    → a.sized_again ≡ true
    → a.mapped ≡ some (head ++ records (v ∷ vs))
    → a.sought ≡ true
    → length head ≡ 8
    → IsReplayable fuel (v ∷ vs)
    → length (head ++ records (v ∷ vs)) < 2 ^ 64
    → length (v ∷ vs) ≤ o.max_replay_count
    → init_journal fuel o a ≡ journal o fd (length (v ∷ vs)) []
unfolding init_journal filter_fd
init_journal-counts fuel fd o a head v vs val op sz again mp sought h rep small max =
    let jnl : List ℕ = head ++ records (v ∷ vs) in
    let (m, deep, short, nonempty) = rep.0 in
    let long : 8 < length jnl = omega (
      arith,
      h,
      length-append head (records (v ∷ vs)),
      length-append (encode v) (records vs),
      nonempty,
    ) in
    ap (after_open fuel o a) op
    ∙ ap (after_stat fuel o a fd) sz
    ∙ any_mode fuel fd (length jnl) o a long
    ∙ count_filtered fuel fd (length jnl) (length (v ∷ vs)) (length (v ∷ vs)) o a long val
        (ap (λ b. if b then filter_mapped fuel o.max_replay_count a.mapped else fstat_error) again
          ∙ ap (filter_mapped fuel o.max_replay_count) mp
          ∙ ap filtered_of
              (filter_msgs-counter fuel o.max_replay_count head (v ∷ vs) h rep small max))
        sought
