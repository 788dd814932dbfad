-- ===== src/Scheduler/Wakeup.antt =====
-- internal/scheduler/scheduler.go: Nudge, WorkAdded and the select of Run. A handler commits rows and
-- nudges afterwards; the channel of the nudges holds one, and the loop may be anywhere meanwhile.
use sonata.Prelude.{ℕ, suc, ◌-◌, ◌<◌, ◌≤◌, ◌≡◌, ◌⊎◌, inl, inr, refl, Bool, true, false, arith}

-- Where the loop of Run is.
pub data Phase : Type 0 where
  dispatching selecting : Phase

-- `token` is whether the channel holds a nudge, `owed` the commits whose nudge has not been sent, and
-- `unseen` the commits since the last dispatch began.
pub record Loop : Type 0 where
  pub phase : Phase
  pub token : Bool
  pub owed : ℕ
  pub unseen : ℕ

-- Nudge: a channel that is full is left alone.
unfoldable pub nudge : Loop → Loop
nudge l = record l { token = true; owed = l.owed - 1 }

-- A dispatch sees all that was committed before it.
unfoldable pub begin_dispatch : Bool → Loop → Loop
begin_dispatch token l = record l { phase = dispatching; token = token; unseen = 0 }

pub data Step (l : Loop) : Loop → Type 0 where
  commits : Step l (record l { owed = suc l.owed; unseen = suc l.unseen })
  nudges : 0 < l.owed → Step l (nudge l)
  -- The dispatch and armTimer have returned.
  selects : l.phase ≡ dispatching → Step l (record l { phase = selecting })
  -- The select takes the nudge.
  wakes : l.phase ≡ selecting → l.token ≡ true → Step l (begin_dispatch false l)
  -- It takes a result, the timer or a request to cancel.
  otherwise : l.phase ≡ selecting → Step l (begin_dispatch l.token l)

-- The loop before its first dispatch.
abbrev pub start : Loop
start = record { phase = dispatching; token = false; owed = 0; unseen = 0 }

pub data Reach : Loop → Type 0 where
  here : Reach start
  next : {l m : Loop} → Reach l → Step l m → Reach m

-- What the last dispatch may have missed is still to be nudged for, or has a nudge in the channel.
abbrev IsAwake : Loop → Type 0
IsAwake l = (l.unseen ≤ l.owed) ⊎ (l.token ≡ true)

Step-IsAwake : {l m : Loop} → Step l m → IsAwake l → IsAwake m
unfolding nudge begin_dispatch
Step-IsAwake commits (inl h) = inl (omega (arith, h))
Step-IsAwake commits (inr t) = inr t
Step-IsAwake (nudges p) h = inr refl
Step-IsAwake (selects e) h = h
Step-IsAwake (wakes e t) h = inl (omega arith)
Step-IsAwake (otherwise e) h = inl (omega arith)

Reach-IsAwake : {l : Loop} → Reach l → IsAwake l
Reach-IsAwake here = inl (omega arith)
Reach-IsAwake (next r s) = Step-IsAwake s (Reach-IsAwake r)

-- No wakeup is lost: whatever the interleaving of handlers and loop, where the loop waits in its
-- select, rows have been committed since its last dispatch began, and every handler has sent its
-- nudge, the select can take a nudge, and the dispatch after it sees all rows.
pub Reach-wakes :
    {l : Loop}
    → Reach l
    → l.phase ≡ selecting
    → 0 < l.unseen
    → l.owed ≡ 0
    → Step l (begin_dispatch false l) × ((begin_dispatch false l).unseen ≡ 0)
unfolding begin_dispatch
Reach-wakes {l} r waits missed sent = elim (Reach-IsAwake r) [
  | inl h ↦ absurd (omega (arith, h, missed, sent))
  | inr t ↦ (wakes waits t, refl)
]
