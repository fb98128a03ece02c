-- ===== src/Thread.antt =====
-- libbb/bb_thread.c: what is asked of the system for a thread, in its order. Its answers are arguments; a number of the
-- errors is given without its sign.
mod Tests
use imx8mp_building_blocks.Base.{
  ℕ, ◌-◌, ◌%◌, ◌==◌, ltb, not, ◌&&◌, Bool, true, false, Option, none, some, List, [], ◌∷◌, ◌++◌,
  if◌then◌else◌,
}
use imx8mp_building_blocks.Base.Bytes.{Bytes}
use imx8mp_building_blocks.Base.Words.{is_neg, int_lt, int_mod, int_sub, minus_one}

-- `bb_thread_t`, but for the entry, its argument and the id, which are passed on.
pub record Thread : Type 0 where
  pub name : Option Bytes
  pub cpu_affinity : ℕ
  pub sched_policy : ℕ
  pub priority : ℕ
  pub stack_size : ℕ

-- What is asked of the system. A set of processors is none where the number is behind its end.
pub data ThreadCall : Type 0 where
  attr_stacksize attr_policy attr_priority : ℕ → ThreadCall
  attr_explicit : ThreadCall
  create_thread join : ThreadCall
  affinity : Option ℕ → ThreadCall
  named : Bytes → ThreadCall
  scheduler : ℕ → ℕ → ThreadCall

abbrev pub sched_other : ℕ
sched_other = 0

abbrev pub sched_fifo : ℕ
sched_fifo = 1

-- CPU_ZERO and CPU_SET: a `cpu_set_t` has 1024 bits, and a number behind them sets none.
abbrev pub cpu_set : ℕ → Option ℕ
cpu_set cpu = if ltb cpu 1024 then some cpu else none

abbrev when : Bool → ThreadCall → List ThreadCall
when true call = call ∷ []
when false call = []

-- The attributes of a new thread.
unfoldable pub attributes : Thread → List ThreadCall
attributes t =
    when (ltb 0 t.stack_size) (attr_stacksize t.stack_size)
    ++ when (not (t.sched_policy == sched_other)) (attr_policy t.sched_policy)
    ++ when (int_lt 0 t.priority) (attr_priority t.priority)
    ++ attr_explicit ∷ []

abbrev named_as : Option Bytes → List ThreadCall
named_as none = []
named_as (some name) = named name ∷ []

-- bb_thread_spawn, with what pthread_create returns: the affinity and the name are set once the thread runs, and their
-- status is dropped.
unfoldable pub thread_spawn : ℕ → Thread → ℕ × List ThreadCall
unfolding attributes
thread_spawn rc t = (
  rc,
  attributes t
      ++ create_thread
        ∷ (if rc == 0
            then when (not (is_neg t.cpu_affinity)) (affinity (cpu_set t.cpu_affinity))
              ++ named_as t.name
            else []),
)

-- bb_thread_set_rt, with the error of sched_setscheduler, 0 for none.
unfoldable pub set_rt : ℕ → ℕ → ℕ × List ThreadCall
set_rt errno priority = (int_sub 0 errno, scheduler sched_fifo priority ∷ [])

-- bb_thread_pin, with the error of pthread_setaffinity_np, as errno.
unfoldable pub pin : ℕ → ℕ → ℕ × List ThreadCall
pin errno cpu = (int_sub 0 errno, affinity (cpu_set cpu) ∷ [])

-- bb_thread_join, with what pthread_join returns.
unfoldable pub thread_join : ℕ → ℕ × List ThreadCall
thread_join rc = (rc, join ∷ [])

-- bb_thread_set_name
unfoldable pub set_name : Bytes → List ThreadCall
set_name name = named name ∷ []
