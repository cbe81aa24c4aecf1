-- ===== src/LogFilter/Replay.antt =====
-- `mg_eval_msg`, `mg_replay_msgs` and `mg_replay` (log_filter/src/log_filter.c).
use mgkdb.Prelude.{
  ℕ, zero, suc, ◌+◌, Bool, true, false, Option, none, some, List, [], ◌∷◌, ◌++◌, length, drop, ltb,
  if◌then◌else◌,
}
use mgkdb.LogFilter.Check.{Checked, check_msg}
use mgkdb.LogFilter.Reify.{Kx, Made, reify}

-- The replies of `mg_replay`: an error of `krr`, or `kb(1)`, here with `num_msgs`. `outside`, `aborted` and
-- `stuck` are no replies.
pub data Reply : Type 0 where
  names_type stat_fail src_path_filetype open_src read_src_header mmap_src : Reply
  outside aborted stuck : Reply
  done : ℕ → Reply

-- What the system calls answered.
pub record Answers : Type 0 where
  -- `stat`: -1, or whether the mode is a link or a regular file, and the size.
  pub file : Option (Bool × ℕ)
  pub opened : Bool
  pub header_read : Bool
  pub mapped : Bool
  -- The memory from the address that `mmap` returned: the file, and zeros to the end of its page.
  pub mem : List ℕ

module _ (kx : Kx) where
  open kx use {K}

  -- The messages that were evaluated, in their order, and the reply.
  pub record Replayed : Type 0 where
    pub evals : List K
    pub reply : Reply

  abbrev pub stop : List K → Reply → Replayed
  stop evals reply = record { evals = evals; reply = reply }

  -- `mg_eval_msg`: the q process evaluates the object with `{value x}`, and whatever it answers the
  -- result is 0. `go` is the code behind the call.
  abbrev pub eval_msg : List K → Made kx → (List K → Replayed) → Replayed
  eval_msg evals (Made.made l k) go = go (evals ++ (k ∷ []))
  eval_msg evals Made.outside go = stop evals outside
  eval_msg evals Made.aborted go = stop evals aborted
  eval_msg evals Made.stuck go = stop evals stuck

  -- The body of the loop, for what `mg_chk_msg` found at the message: `go` is the code behind it.
  abbrev pub replay_msg : Checked → Made kx → List K → ℕ → (List K → ℕ → ℕ → Replayed) → Replayed
  replay_msg (Checked.got len true) msg evals num_msgs go =
      eval_msg evals msg (λ e. go e (num_msgs + 1) len)
  replay_msg (Checked.got len false) msg evals num_msgs go = go evals num_msgs len
  replay_msg Checked.outside msg evals num_msgs go = stop evals outside
  replay_msg Checked.aborted msg evals num_msgs go = stop evals aborted
  replay_msg Checked.stuck msg evals num_msgs go = stop evals stuck

  -- The loop of `mg_replay_msgs`, on fuel.
  unfoldable pub replay_loop : ℕ → List (List ℕ) → List ℕ → ℕ → ℕ → List K → ℕ → Replayed
  replay_loop zero names src size off evals num_msgs = stop evals stuck
  replay_loop (suc fuel) names src size off evals num_msgs =
      replay_msg (check_msg names (drop off src)) (reify kx (suc (length src)) (drop off src)) evals
        num_msgs
        (λ e num len. elim (ltb (off + len) size) [
          | true ↦ replay_loop fuel names src size (off + len) e num
          | false ↦ stop e (done num)
        ])

  -- `mg_replay_msgs(src, off, size, tbl_names)`: a message has at least one byte.
  unfoldable pub replay_msgs : List (List ℕ) → List ℕ → ℕ → ℕ → Replayed
  unfolding replay_loop
  replay_msgs names src off size = replay_loop (suc size) names src size off [] 0

  -- Behind `stat`.
  abbrev pub replay_file : List (List ℕ) → Answers → Bool → ℕ → Replayed
  replay_file names a false size = stop [] src_path_filetype
  replay_file names a true size =
      if a.opened
      then (if a.header_read
          then (if a.mapped then replay_msgs names a.mem 8 size else stop [] mmap_src)
          else stop [] read_src_header)
      else stop [] open_src

  abbrev pub replay_stat : List (List ℕ) → Answers → Option (Bool × ℕ) → Replayed
  replay_stat names a none = stop [] stat_fail
  replay_stat names a (some (ok, size)) = replay_file names a ok size

  -- `mg_replay`: `names` is `none` where `tbl_names` is no symbol vector. What q answers to the test of
  -- `src_path` is not read.
  unfoldable pub replay : Option (List (List ℕ)) → Answers → Replayed
  unfolding replay_msgs
  replay none a = stop [] names_type
  replay (some names) a = replay_stat names a a.file
