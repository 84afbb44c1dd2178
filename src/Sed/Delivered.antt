-- ===== src/Sed/Delivered.antt =====
-- When the lexer of makeEngine (gosed/engine.go) can send all of its tokens.
use gosutils.Prelude.{ℕ, zero, suc, ◌+◌, ◌≤◌, ◌<◌, ◌≡◌, ◌⊎◌, ◌↔◌, inl, inr, arith, dec_lt}
use gosutils.Sed.Channel.{
  capacity, Channel, Step, send, receive, launch, Returns, Steps, Inevitable, now, later,
}

-- What is left of the work: each step takes from it.
abbrev pub work : Channel → ℕ
work c = c.unsent + c.unsent + c.buffered

Step-work : {s t : Channel} → Step s t → work t < work s
Step-work (send c p q) = omega arith
Step-work (receive c p q) = omega arith

-- What the parser leaves unread is in the channel at the end, or unsent.
record Holds (unread : ℕ) (c : Channel) : Type 0 where
  total : c.unsent + c.buffered ≡ unread + c.wanted
  room : c.buffered ≤ capacity

Step-Holds : (unread : ℕ) {s t : Channel} → Step s t → Holds unread s → Holds unread t
Step-Holds u (send c p q) h = record { total = omega (arith, h.total); room = omega arith }
Step-Holds u (receive c p q) h = record {
  total = omega (arith, h.total);
  room = omega (arith, h.room);
}

launch-Holds : (tokens unread : ℕ) → unread ≤ tokens → Holds unread (launch tokens unread)
launch-Holds tokens unread h = record { total = omega arith; room = omega arith }

Holds-Steps : (unread : ℕ) (c : Channel) → unread ≤ capacity → Holds unread c → Steps c ⊎ Returns c
Holds-Steps u c le h = elim (dec_lt 0 c.wanted) [
  | yes w ↦ elim (dec_lt 0 c.buffered) [
    | yes b ↦ inl (_, receive c w b)
    | no b ↦ inl (_, send c (omega (arith, h.total)) (omega arith))
  ]
  | no w ↦ elim (dec_lt 0 c.unsent) [
    | yes p ↦ inl (_, send c p (omega (arith, h.total)))
    | no p ↦ inr (omega arith, omega arith)
  ]
]

Holds-Inevitable :
    (fuel unread : ℕ) (c : Channel)
    → work c < fuel
    → unread ≤ capacity
    → Holds unread c
    → Inevitable c
Holds-Inevitable zero u c w le h = absurd (omega arith)
Holds-Inevitable (suc fuel) u c w le h = elim (Holds-Steps u c le h) [
  | inr r ↦ now c r
  | inl s ↦
      later c s
        (λ t st. Holds-Inevitable fuel u t (omega (arith, Step-work st)) le (Step-Holds u st h))
]

-- An end that a run comes to has room for what is unread.
Inevitable-room : (unread : ℕ) (c : Channel) → Holds unread c → Inevitable c → unread ≤ capacity
Inevitable-room u _ h (now c r) = omega (arith, h.total, h.room)
Inevitable-room u _ h (later c (t, st) go) = Inevitable-room u t (Step-Holds u st h) (go t st)

pub launch-Inevitable :
    (tokens unread : ℕ) → unread ≤ tokens → Inevitable (launch tokens unread) ↔ (unread ≤ capacity)
launch-Inevitable n u h = (
  Inevitable-room u (launch n u) (launch-Holds n u h),
  λ le.
      Holds-Inevitable (suc (work (launch n u))) u (launch n u) (omega arith) le
        (launch-Holds n u h),
)
