-- ===== src/P2p/Sender/Wake.antt =====
-- The wake-up protocol between `enqueue` and the loop of `edgeSender.run`: the producers append under
-- the mutex and signal after it; the loop waits on the channel only after a dequeue that gave nothing.
use peerkit.Prelude.{
  ℕ, suc, ◌<◌, ◌≡◌, ◌≢◌, refl, ◌⊎◌, inl, inr, Bool, true, false, none, some, [], arith,
}
use peerkit.P2p.Sender.{OutboundItem, EdgeSender, push, signal, dequeue}

-- `sending` covers `send` and the way back to the dequeue.
pub data Phase : Type 0 where
  polling sending waiting : Phase

-- `signalling` counts the producers between the append and the signal.
pub record System : Type 0 where
  pub sender : EdgeSender
  pub phase : Phase
  pub signalling : ℕ

pub data Step : System → System → Type 0 where
  append :
      (y : System) (i : OutboundItem) (control : Bool) (s' : EdgeSender)
      → push y.sender i control ≡ (s', true)
      → Step y (record y { sender = s'; signalling = suc y.signalling })
  reject :
      (y : System) (i : OutboundItem) (control : Bool)
      → (push y.sender i control).1 ≡ false
      → Step y y
  notify :
      (y : System) (n : ℕ)
      → y.signalling ≡ suc n
      → Step y (record y { sender = signal y.sender; signalling = n })
  take :
      (y : System) (s' : EdgeSender) (i : OutboundItem)
      → y.phase ≡ polling
      → dequeue y.sender ≡ (s', some i)
      → Step y (record y { sender = s'; phase = sending })
  sent : (y : System) → y.phase ≡ sending → Step y (record y { phase = polling })
  sleep :
      (y : System) (s' : EdgeSender)
      → y.phase ≡ polling
      → dequeue y.sender ≡ (s', none)
      → Step y (record y { sender = s'; phase = waiting })
  awake :
      (y : System)
      → y.phase ≡ waiting
      → y.sender.wake ≡ true
      → Step y (record y { sender = record (y.sender) { wake = false }; phase = polling })

pub data Reach (y : System) : System → Type 0 where
  here : Reach y y
  next : {u v : System} → Reach y u → Step u v → Reach y v

abbrev pub IsIdle : EdgeSender → Type 0
IsIdle s = (s.control_queue ≡ []) × (s.data_queue ≡ [])

-- A loop that waits beside queued frames has a signal in the channel or on its way.
abbrev pub IsLive : System → Type 0
IsLive y = (y.phase ≢ waiting) ⊎ (IsIdle y.sender ⊎ ((y.sender.wake ≡ true) ⊎ (0 < y.signalling)))

Step-IsLive : {y z : System} → Step y z → IsLive y → IsLive z
unfolding push signal dequeue
Step-IsLive (append y i control s' e) h = inr (inr (inr (omega arith)))
Step-IsLive (reject y i control e) h = h
Step-IsLive (notify y n e) h = inr (inr (inl refl))
Step-IsLive (take y s' i p e) h = inl (λ q. cc)
Step-IsLive (sent y p) h = inl (λ q. cc)
Step-IsLive (sleep y s' p e) h = inr (inl (ground arith, ground arith))
Step-IsLive (awake y p e) h = inl (λ q. cc)

Reach-IsLive : {y z : System} → IsLive y → Reach y z → IsLive z
Reach-IsLive h here = h
Reach-IsLive h (next r st) = Step-IsLive st (Reach-IsLive h r)

abbrev pub start : EdgeSender → System
start s = record { sender = s; phase = polling; signalling = 0 }

-- No wake-up is lost: in every state that interleaved producers and the sender's loop reach, a loop
-- that waits with no signal in the channel and no producer about to signal has empty queues.
pub no_lost_wake :
    (s : EdgeSender) (y : System)
    → Reach (start s) y
    → y.phase ≡ waiting
    → y.sender.wake ≡ false
    → y.signalling ≡ 0
    → IsIdle y.sender
no_lost_wake s y r p e n = elim (Reach-IsLive {y = start s} (inl (λ q. cc)) r) [
  | inl q ↦ absurd (q p)
  | inr (inl h) ↦ h
  | inr (inr (inl w)) ↦ cc
  | inr (inr (inr k)) ↦ absurd (omega arith)
]
