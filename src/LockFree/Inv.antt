-- ===== src/LockFree/Inv.antt =====
-- What holds of the nodes and of the threads between any two steps.
use libsvr.Common.{ℕ, ◌+◌, ◌-◌, ◌^◌, ◌≤◌, ◌<◌, ◌≡◌, ◌⊎◌, Option, some}
use libsvr.LockFree.{
  Pc, idle, push_loaded, push_free, push_write, push_publish, pop_loaded, pop_full, pop_read,
  pop_release, Stage, free, writing, full, reading, System, slot,
}

-- a node holds the value that was sent with its ticket
abbrev pub Holds : {T : Type 0} → Option T → Option T → Type 0
Holds {T} held sent = (v : T) × (held ≡ some v) × (sent ≡ some v)

-- `head` of a node, before the node is full: that of an earlier round, or none
abbrev pub IsOld : ℕ → ℕ → Type 0
IsOld head node_head = (node_head ≡ 2 ^ 64 - 1) ⊎ (node_head < head)

module _ {T : Type 0} (capacity : ℕ) where
  -- A node whose `tail`, its next ticket or the present one, is `ticket`.
  abbrev pub NodeIs : ℕ → ℕ → ℕ → ℕ → Option T → Option T → Stage → Type 0
  NodeIs tail head ticket node_head held sent free = (tail ≤ ticket) × IsOld head node_head
  NodeIs tail head ticket node_head held sent (writing j) =
      (ticket < tail) × (tail ≤ ticket + capacity) × (head ≤ ticket) × IsOld head node_head
  NodeIs tail head ticket node_head held sent full =
      (ticket < tail)
      × (tail ≤ ticket + capacity)
      × (head ≤ ticket)
      × (node_head ≡ ticket)
      × Holds held sent
  NodeIs tail head ticket node_head held sent (reading j) =
      (ticket < tail) × (tail ≤ ticket + capacity) × (ticket < head) × (node_head ≡ ticket)

  pub record Node (s : System T) (i : ℕ) : Type 0 where
    pub place : slot capacity (s.node_tail i) ≡ i
    pub state :
        NodeIs s.tail s.head
          (s.node_tail i)
          (s.node_head i)
          (s.node_data i)
          (s.sent (s.node_tail i))
          (s.stage i)

  -- What a thread knows where it stands.
  abbrev pub Local : System T → ℕ → Pc T → Type 0
  Local s j idle = Unit
  Local s j (push_loaded d k) = Unit
  Local s j (push_free d k) = (k < s.tail) ⊎ (s.node_tail (slot capacity k) ≡ k)
  Local s j (push_write d k) =
      (s.stage (slot capacity k) ≡ writing j)
      × (s.node_tail (slot capacity k) ≡ k)
      × (k < s.tail)
      × (s.sent k ≡ some d)
  Local s j (push_publish d k) =
      (s.stage (slot capacity k) ≡ writing j)
      × (s.node_tail (slot capacity k) ≡ k)
      × (k < s.tail)
      × (s.sent k ≡ some d)
      × (s.node_data (slot capacity k) ≡ some d)
  Local s j (pop_loaded h) = h ≤ s.head
  Local s j (pop_full h) = (h < s.head) ⊎ ((h ≡ s.head) × (s.node_head (slot capacity h) ≡ h))
  Local s j (pop_read h) =
      (s.stage (slot capacity h) ≡ reading j)
      × (s.node_tail (slot capacity h) ≡ h)
      × (h < s.tail)
      × Holds (s.node_data (slot capacity h)) (s.sent h)
  Local s j (pop_release h v) =
      (s.stage (slot capacity h) ≡ reading j)
      × (s.node_tail (slot capacity h) ≡ h)
      × (h < s.tail)
      × (s.sent h ≡ some v)

  pub record Inv (s : System T) : Type 0 where
    pub positive : 0 < capacity
    pub room : s.tail + capacity < 2 ^ 64
    pub order : s.head ≤ s.tail
    pub nodes : (i : ℕ) → i < capacity → Node s i
    pub threads : (j : ℕ) → Local s j (s.pc j)
    pub cover : (k : ℕ) → s.head ≤ k → k < s.tail → s.node_tail (slot capacity k) ≡ k
