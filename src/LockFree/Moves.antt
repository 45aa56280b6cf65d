-- ===== src/LockFree/Moves.antt =====
-- What a step leaves alone: a thread changes its own node only.
use libsvr.Common.{
  ℕ, ◌+◌, ◌^◌, ◌≤◌, ◌<◌, ◌≡◌, ◌≢◌, ◌⊎◌, inl, inr, refl, sym, ap, subst, ◌∙◌, arith, Option,
  ℕ_discrete, ne→==, eq→==,
}
use native.Mathlib.Nat.{add-mod_right}
use libsvr.LockFree.{
  Pc, idle, push_loaded, push_free, push_write, push_publish, pop_loaded, pop_full, pop_read,
  pop_release, Stage, free, writing, full, reading, System, slot, update,
}
use libsvr.LockFree.Inv.{IsOld, NodeIs, Node, Local, Inv}

pub update-same {ℓ} : {A : Type ℓ} (f : ℕ → A) (i : ℕ) (a : A) → update f i a i ≡ a
update-same f i a = rw (eq→== i i refl)

pub update-other {ℓ} : {A : Type ℓ} (f : ℕ → A) (i j : ℕ) (a : A) → j ≢ i → update f i a j ≡ f j
update-other f i j a n = rw (ne→== i j (λ e. n (sym e)))

pub slot-add : (capacity k : ℕ) → slot capacity (k + capacity) ≡ slot capacity k
unfolding slot
slot-add capacity k = add-mod_right k capacity

module _ {T : Type 0} (capacity : ℕ) where
  -- Thread `j` goes from `s` to `s'` and changes the node `i0` only.
  pub record Frame (s s' : System T) (j i0 : ℕ) : Type 0 where
    pub tail_up : (s'.tail ≡ s.tail) ⊎ ((s'.tail ≡ s.tail + 1) × (slot capacity s.tail ≡ i0))
    pub head_up : (s'.head ≡ s.head) ⊎ ((s'.head ≡ s.head + 1) × (slot capacity s.head ≡ i0))
    pub stage_keep : (i : ℕ) → i ≢ i0 → s'.stage i ≡ s.stage i
    pub tail_keep : (i : ℕ) → i ≢ i0 → s'.node_tail i ≡ s.node_tail i
    pub head_keep : (i : ℕ) → i ≢ i0 → s'.node_head i ≡ s.node_head i
    pub data_keep : (i : ℕ) → i ≢ i0 → s'.node_data i ≡ s.node_data i
    pub sent_keep : (k : ℕ) → (k ≢ s.tail) ⊎ (slot capacity k ≢ i0) → s'.sent k ≡ s.sent k
    pub pc_keep : (a : ℕ) → a ≢ j → s'.pc a ≡ s.pc a
    pub unwritten : (a : ℕ) → a ≢ j → s.stage i0 ≢ writing a
    pub unread : (a : ℕ) → a ≢ j → s.stage i0 ≢ reading a
    pub tail_moves : (s.node_tail i0 < s'.tail) ⊎ (s'.node_tail i0 ≡ s.node_tail i0)
    pub head_moves : (s.node_head i0 ≢ s.head) ⊎ ((s'.node_head i0 ≡ s.node_head i0))

  module _ {s s' : System T} {j i0 : ℕ} (f : Frame s s' j i0) where
    open f use {
      tail_up, head_up, stage_keep, tail_keep, head_keep, data_keep, sent_keep, pc_keep, unwritten,
      unread, tail_moves, head_moves,
    }

    tail_free :
        (t : ℕ)
        → slot capacity t ≢ i0
        → (s'.tail ≡ s.tail) ⊎ ((s'.tail ≡ s.tail + 1) × (s.tail ≢ t))
    tail_free t n = elim tail_up [
      | inl e ↦ inl e
      | inr (e, at) ↦ inr (e, λ q. n (ap (slot capacity) (sym q) ∙ at))
    ]

    head_free :
        (t : ℕ)
        → slot capacity t ≢ i0
        → (s'.head ≡ s.head) ⊎ ((s'.head ≡ s.head + 1) × (s.head ≢ t))
    head_free t n = elim head_up [
      | inl e ↦ inl e
      | inr (e, at) ↦ inr (e, λ q. n (ap (slot capacity) (sym q) ∙ at))
    ]

    head_grows : s.head ≤ s'.head
    head_grows = omega arith

    tail_grows : s.tail ≤ s'.tail
    tail_grows = omega arith

    IsOld-mono : {h : ℕ} → IsOld s.head h → IsOld s'.head h
    IsOld-mono o = omega (arith, head_grows)

    NodeIs-mono :
        (t h : ℕ) (held sent : Option T) (g : Stage)
        → slot capacity t ≢ i0
        → slot capacity (t + capacity) ≢ i0
        → NodeIs capacity s.tail s.head t h held sent g
        → NodeIs capacity s'.tail s'.head t h held sent g
    NodeIs-mono t h held sent free n m (a, o) = (ground (arith, tail_free t n), IsOld-mono o)
    NodeIs-mono t h held sent (writing j) n m (a, b, c, o) = (
      omega (arith, tail_grows),
      ground (arith, tail_free (t + capacity) m),
      ground (arith, head_free t n),
      IsOld-mono o,
    )
    NodeIs-mono t h held sent full n m (a, b, c, o, z) = (
      omega (arith, tail_grows),
      ground (arith, tail_free (t + capacity) m),
      ground (arith, head_free t n),
      o,
      z,
    )
    NodeIs-mono t h held sent (reading j) n m (a, b, c, o) = (
      omega (arith, tail_grows),
      ground (arith, tail_free (t + capacity) m),
      omega (arith, head_grows),
      o,
    )

    ticket_kept : (k : ℕ) → k < s.tail → s'.sent k ≡ s.sent k
    ticket_kept k l = sent_keep k (inl (omega arith))

    place_away : (i : ℕ) → i ≢ i0 → Node capacity s i → slot capacity (s.node_tail i) ≢ i0
    place_away i n h e = n (sym h.place ∙ e)

    Node-keep : (i : ℕ) → i ≢ i0 → Node capacity s i → Node capacity s' i
    Node-keep i n h = record {
      place = ap (slot capacity) (tail_keep i n) ∙ h.place;
      state =
          rw
            (
              tail_keep i n,
              head_keep i n,
              data_keep i n,
              stage_keep i n,
              sent_keep (s.node_tail i) (inr (place_away i n h)),
            )
            (NodeIs-mono (s.node_tail i) _ _ _ (s.stage i) (place_away i n h)
              (λ e. place_away i n h (sym (slot-add capacity _) ∙ e)) h.state);
    }

    push_free_here :
        (i k : ℕ)
        → i ≡ i0
        → (k < s.tail) ⊎ (s.node_tail i ≡ k)
        → (k < s'.tail) ⊎ (s'.node_tail i ≡ k)
    push_free_here i k e (inl l) = inl (omega (arith, tail_grows))
    push_free_here i k e (inr t) = grind (arith, tail_moves)

    pop_full_keep : (h : ℕ) → Local capacity s 0 (pop_full h) → Local capacity s' 0 (pop_full h)
    pop_full_keep h (inl l) = inl (omega (arith, head_grows))
    pop_full_keep h (inr (e, q)) = elim head_up [
      | inr (up, at) ↦ inl (omega arith)
      | inl same ↦ inr (
        e ∙ sym same,
        elim (ℕ_discrete (slot capacity h) i0) [
          | yes here ↦ grind (arith, head_moves)
          | no away ↦ head_keep _ away ∙ q
        ],
      )
    ]

    Local-keep : (a : ℕ) (p : Pc T) → a ≢ j → Local capacity s a p → Local capacity s' a p
    Local-keep a idle n h = tt
    Local-keep a (push_loaded d k) n h = tt
    Local-keep a (push_free d k) n h = elim (ℕ_discrete (slot capacity k) i0) [
      | yes e ↦ push_free_here (slot capacity k) k e h
      | no e ↦ elim h [ inl l ↦ inl (omega (arith, tail_grows)) | inr t ↦ inr (tail_keep _ e ∙ t) ]
    ]
    Local-keep a (push_write d k) n (w, t, l, q) = elim (ℕ_discrete (slot capacity k) i0) [
      | yes e ↦ elim (unwritten a n (ap s.stage (sym e) ∙ w)) [ ]
      | no e ↦
          (stage_keep _ e ∙ w, tail_keep _ e ∙ t, omega (arith, tail_grows), ticket_kept k l ∙ q)
    ]
    Local-keep a (push_publish d k) n (w, t, l, q, v) = elim (ℕ_discrete (slot capacity k) i0) [
      | yes e ↦ elim (unwritten a n (ap s.stage (sym e) ∙ w)) [ ]
      | no e ↦ (
        stage_keep _ e ∙ w,
        tail_keep _ e ∙ t,
        omega (arith, tail_grows),
        ticket_kept k l ∙ q,
        data_keep _ e ∙ v,
      )
    ]
    Local-keep a (pop_loaded h) n l = omega (arith, head_grows)
    Local-keep a (pop_full h) n l = pop_full_keep h l
    Local-keep a (pop_read h) n (w, t, l, (v, q, u)) = elim (ℕ_discrete (slot capacity h) i0) [
      | yes e ↦ elim (unread a n (ap s.stage (sym e) ∙ w)) [ ]
      | no e ↦ (
        stage_keep _ e ∙ w,
        tail_keep _ e ∙ t,
        omega (arith, tail_grows),
        (v, data_keep _ e ∙ q, ticket_kept h l ∙ u),
      )
    ]
    Local-keep a (pop_release h v) n (w, t, l, q) = elim (ℕ_discrete (slot capacity h) i0) [
      | yes e ↦ elim (unread a n (ap s.stage (sym e) ∙ w)) [ ]
      | no e ↦
          (stage_keep _ e ∙ w, tail_keep _ e ∙ t, omega (arith, tail_grows), ticket_kept h l ∙ q)
    ]

    -- so the invariant is a matter of the node and of the thread that moved
    pub Inv-step :
        Inv capacity s
        → s'.tail + capacity < 2 ^ 64
        → s'.head ≤ s'.tail
        → Node capacity s' i0
        → Local capacity s' j (s'.pc j)
        → ((k : ℕ) → slot capacity k ≡ i0 → s'.head ≤ k → k < s'.tail → s'.node_tail i0 ≡ k)
        → Inv capacity s'
    Inv-step inv room order node mine covers = record {
      positive = inv.positive;
      room = room;
      order = order;
      nodes = λ i l. elim (ℕ_discrete i i0) [
        | yes e ↦ subst (Node capacity s') (sym e) node
        | no e ↦ Node-keep i e (inv.nodes i l)
      ];
      threads = λ a. elim (ℕ_discrete a j) [
        | yes e ↦ subst (λ x. Local capacity s' x (s'.pc x)) (sym e) mine
        | no e ↦
            subst (Local capacity s' a) (sym (pc_keep a e))
              (Local-keep a (s.pc a) e (inv.threads a))
      ];
      cover = λ k h l. elim (ℕ_discrete (slot capacity k) i0) [
        | yes e ↦ ap s'.node_tail e ∙ covers k e h l
        | no e ↦
            tail_keep _ e ∙ inv.cover k (omega (arith, head_grows)) (ground (arith, tail_free k e))
      ];
    }

  -- a step that only moves the thread on
  pub Inv-go :
      (s : System T) (j : ℕ) (p : Pc T)
      → Inv capacity s
      → Local capacity s j p
      → Inv capacity (record s { pc = update s.pc j p })
  Inv-go s j p inv mine = record {
    positive = inv.positive;
    room = inv.room;
    order = inv.order;
    nodes = λ i l. record { place = (inv.nodes i l).place; state = (inv.nodes i l).state };
    threads = λ a. elim (ℕ_discrete a j) [
      | yes e ↦
          subst (λ x. Local capacity (record s { pc = update s.pc j p }) x (update s.pc j p x))
            (sym e) (rw (update-same s.pc j p) mine)
      | no e ↦ rw (update-other s.pc j a p e) (inv.threads a)
    ];
    cover = inv.cover;
  }
