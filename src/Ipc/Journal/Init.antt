-- ===== src/Ipc/Journal/Init.antt =====
-- `KdbJournal::init` and `close` (ipc++/src/KdbType.C), on what the system calls answer.
pub mod Owned
use mgkdb.Prelude.{
  ℕ, zero, suc, Bool, true, false, ◌&&◌, Option, none, some, List, [], ◌∷◌, take, ltb, ◌==◌,
  if◌then◌else◌,
}
use mgkdb.Prelude.Int.{ℤ, pos, negsuc}
use mgkdb.Ipc.Types.{sz_msg_hdr}
use mgkdb.Ipc.Journal.{Outcome, counted, incomplete_at, bad_at, no_answer, filter_msgs, counter}

pub record KdbJournal : Type 0 where
  pub m_rd_only : Bool
  pub m_jnl_fd : ℤ
  pub m_msg_count : ℕ

pub record Options : Type 0 where
  pub read_only : Bool
  pub validate_and_count_upon_init : Bool
  pub max_replay_count : ℕ

-- What the calls answer: `none` or `false` is an error.
pub record Answers : Type 0 where
  -- `open`: the descriptor.
  pub opened : Option ℕ
  -- `fstat` in `init`: the size.
  pub sized : Option ℕ
  -- `write`: the number of bytes.
  pub wrote : Option ℕ
  -- `fstat` and `mmap` in `_filter_msgs`, and the bytes of the mapping.
  pub sized_again : Bool
  pub mapped : Option (List ℕ)
  pub sought : Bool

pub data InitError : Type 0 where
  open_failed fstat_failed write_failed no_header lseek_failed : InitError

-- `threw`, an exception leaves the function, and `unknown`, `ipcPayloadLen` gave no answer, are no
-- results.
pub data InitResult : Type 0 where
  made : KdbJournal → InitResult
  unexpected : InitError → InitResult
  threw unknown : InitResult

-- The result, whether the descriptor is open, and the bytes that the file got.
pub record Initialised : Type 0 where
  pub result : InitResult
  pub is_open : Bool
  pub written : List ℕ

-- The errors of `_filter_msgs`, with the offset in the journal.
pub data Filtered : Type 0 where
  filtered : ℕ → ℕ → Filtered
  fstat_error mmap_error not_filtered : Filtered
  record_error : ℕ → Filtered

abbrev pub filtered_of : Outcome → Filtered
filtered_of (counted msg_count use_count) = filtered msg_count use_count
filtered_of (incomplete_at off) = record_error off
filtered_of (bad_at off) = record_error off
filtered_of no_answer = not_filtered

abbrev pub filter_mapped : ℕ → ℕ → Option (List ℕ) → Filtered
filter_mapped fuel max_count none = mmap_error
filter_mapped fuel max_count (some jnl) = filtered_of (filter_msgs counter fuel jnl max_count tt).1

-- `_filter_msgs` with the function that counts, the calls around its loop included.
unfoldable pub filter_fd : ℕ → ℕ → Answers → Filtered
filter_fd fuel max_count a =
    if a.sized_again then filter_mapped fuel max_count a.mapped else fstat_error

-- The header of a new journal.
abbrev pub new_header : List ℕ
new_header = 255 ∷ 1 ∷ 0 ∷ 0 ∷ 0 ∷ 0 ∷ 0 ∷ 0 ∷ []

-- Behind the labels: the descriptor is closed.
abbrev pub fail : InitError → List ℕ → Initialised
fail e w = record { result = unexpected e; is_open = false; written = w }

abbrev pub journal : Options → ℕ → ℕ → List ℕ → Initialised
journal o fd msg_count w = record {
  result = made (record { m_rd_only = o.read_only; m_jnl_fd = pos fd; m_msg_count = msg_count });
  is_open = true;
  written = w;
}

-- Behind `_filter_msgs`: its result's `value()` is read also when it holds an error, and throws.
abbrev pub after_filter : Options → Answers → ℕ → List ℕ → Filtered → Initialised
after_filter o a fd w (filtered msg_count use_count) =
    if a.sought then journal o fd msg_count w else fail lseek_failed w
after_filter o a fd w fstat_error = record { result = threw; is_open = true; written = w }
after_filter o a fd w mmap_error = record { result = threw; is_open = true; written = w }
after_filter o a fd w (record_error off) = record { result = threw; is_open = true; written = w }
after_filter o a fd w not_filtered = record { result = unknown; is_open = true; written = w }

-- Behind the header, with the size that `fstat` gave.
unfoldable pub count_upon_init : ℕ → Options → Answers → ℕ → ℕ → List ℕ → Initialised
unfolding filter_fd
count_upon_init fuel o a fd size w =
    if ltb sz_msg_hdr size && o.validate_and_count_upon_init
    then after_filter o a fd w (filter_fd fuel o.max_replay_count a)
    else journal o fd 0 w

abbrev pub after_write : ℕ → Options → Answers → ℕ → ℕ → Option ℕ → Initialised
after_write fuel o a fd size none = fail write_failed []
after_write fuel o a fd size (some n) = count_upon_init fuel o a fd size (take n new_header)

abbrev pub after_stat : ℕ → Options → Answers → ℕ → Option ℕ → Initialised
after_stat fuel o a fd none = fail fstat_failed []
after_stat fuel o a fd (some size) =
    if o.read_only
    then (if ltb size sz_msg_hdr then fail no_header [] else count_upon_init fuel o a fd size [])
    else if size == 0
    then after_write fuel o a fd size a.wrote
    else count_upon_init fuel o a fd size []

abbrev pub after_open : ℕ → Options → Answers → Option ℕ → Initialised
after_open fuel o a none = record { result = unexpected open_failed; is_open = false; written = [] }
after_open fuel o a (some fd) = after_stat fuel o a fd a.sized

-- `KdbJournal::init`
unfoldable pub init_journal : ℕ → Options → Answers → Initialised
unfolding count_upon_init
init_journal fuel o a = after_open fuel o a a.opened

-- `KdbJournal::close`, from whether the system's `close` succeeds: whether there is an error text.
unfoldable pub close_journal : Bool → KdbJournal → Bool × KdbJournal
close_journal closed j = (if closed then false else true, record j { m_jnl_fd = negsuc 0 })
