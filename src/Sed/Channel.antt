-- ===== src/Sed/Channel.antt =====
-- gosed/engine.go: the goroutine of makeEngine that lexes, the channel of tokens and the parser that
-- reads it, as steps that the scheduler takes in any order.
use gosutils.Prelude.{ℕ, ◌+◌, ◌-◌, ◌<◌, ◌≡◌}

-- `make(chan *token, 128)`.
abbrev pub capacity : ℕ
capacity = 128

-- The tokens that the lexer has yet to send, those in the channel, and those that the parser has yet
-- to take before it returns.
pub record Channel : Type 0 where
  pub unsent : ℕ
  pub buffered : ℕ
  pub wanted : ℕ

-- A send waits for room, a receive for a token.
pub data Step : Channel → Channel → Type 0 where
  send :
      (c : Channel)
      → 0 < c.unsent
      → c.buffered < capacity
      → Step c (record c { unsent = c.unsent - 1; buffered = c.buffered + 1 })
  receive :
      (c : Channel)
      → 0 < c.wanted
      → 0 < c.buffered
      → Step c (record c { buffered = c.buffered - 1; wanted = c.wanted - 1 })

-- The lexer is about to send `tokens`, of which the parser leaves `unread`.
abbrev pub launch : ℕ → ℕ → Channel
launch tokens unread = record { unsent = tokens; buffered = 0; wanted = tokens - unread }

-- The parser has returned, and the lexer has closed its channels: `<-errch` gives a value.
abbrev pub Returns : Channel → Type 0
Returns c = (c.unsent ≡ 0) × (c.wanted ≡ 0)

-- A state from which some step goes on.
abbrev pub Steps : Channel → Type 0
Steps c = (t : Channel) × Step c t

-- Whatever the scheduler does, the run comes to an end in which makeEngine returns.
pub data Inevitable : Channel → Type 0 where
  now : (c : Channel) → Returns c → Inevitable c
  later : (c : Channel) → Steps c → ((t : Channel) → Step c t → Inevitable t) → Inevitable c
