-- ===== src/Goat/Configured.antt =====
-- When MMPDPIsConfigured says that a name is configured (goat/goat.go).
use mathlib.Core.List.{Permᴰ}
use gosutils.Prelude.{
  ℕ, suc, ◌+◌, ◌<◌, ◌≡◌, refl, ap, ◌∙◌, arith, Bool, true, false, [], ◌∷◌, leb, if◌then◌else◌,
}
use gosutils.Prelude.Text.{Text, text_eq, is_empty}
use gosutils.Goat.{Host, answer}
use gosutils.Goat.Manager.{Pdps, mm_get_pdp, configured_loop, is_configured, mm_pdp_is_configured}

-- How many contexts have the name.
unfoldable pub named : Text → Pdps → ℕ
unfolding text_eq
named apn [] = 0
named apn ((k, (kind, name)) ∷ pdps) =
    let rest = named apn pdps in if text_eq name apn then suc rest else rest

-- What one context adds.
hit : Text → Text × (Text × Text) → ℕ
hit apn (k, (kind, name)) = if text_eq name apn then 1 else 0

named-cons :
    (apn : Text) (p : Text × (Text × Text)) (l : Pdps) → named apn (p ∷ l) ≡ hit apn p + named apn l
unfolding named hit
named-cons apn (k, (kind, name)) l = ground arith

named-Perm : (apn : Text) {l m : Pdps} → Permᴰ l m → named apn l ≡ named apn m
named-Perm apn Permᴰ.nil = refl
named-Perm apn (Permᴰ.cons {a = a} {b = b} {l₁ = l} {l₂ = m} e p) =
    omega (arith, named-cons apn a l, named-cons apn b m, ap (hit apn) e, named-Perm apn p)
named-Perm apn (Permᴰ.swap {a = a} {b = b} {a' = c} {b' = d} {l = l} e f) = omega (
  arith,
  named-cons apn a (b ∷ l),
  named-cons apn b l,
  named-cons apn c (d ∷ l),
  named-cons apn d l,
  ap (hit apn) e,
  ap (hit apn) f,
)
named-Perm apn (Permᴰ.trans p q) = named-Perm apn p ∙ named-Perm apn q

zero_plus : (n : ℕ) → 0 + n ≡ n
zero_plus n = omega arith

named-nil : (apn : Text) (l : Pdps) → is_empty l ≡ true → named apn l ≡ 0
unfolding named
named-nil apn [] h = refl
named-nil apn (p ∷ l) h = absurd (ground arith)

module _ {S : Type 0} (h : Host S) (order : Pdps → Pdps) where
  configured_loop-named :
      (apn : Text) (pdps : Pdps) (cnt : ℕ)
      → cnt < 3
      → configured_loop h order apn pdps cnt ≡ leb 3 (cnt + named apn pdps)
  unfolding configured_loop named
  configured_loop-named apn [] cnt few = ground arith
  configured_loop-named apn ((k, (kind, name)) ∷ pdps) cnt few =
      let rest = configured_loop-named apn pdps in ground (arith, rest cnt, rest (cnt + 1))

  if_listed :
      (apn : Text) (pdps : Pdps) (b : Bool)
      → b ≡ leb 3 (named apn pdps)
      → (if is_empty pdps then false else b) ≡ leb 3 (named apn pdps)
  if_listed apn pdps b e = let none_named = named-nil apn pdps in ground (arith, e)

  -- MMPDPIsConfigured, where MMGetPDP lists the contexts: true exactly when three of them or more
  -- have the name, in whatever order the range goes through the map.
  pub mm_pdp_is_configured-named :
      (apn : Text) (pdps : Pdps) (s s1 : S)
      → mm_get_pdp h order s ≡ (answer pdps, s1)
      → Permᴰ (order pdps) pdps
      → mm_pdp_is_configured h order apn s ≡ (answer (leb 3 (named apn pdps)), s1)
  unfolding mm_pdp_is_configured
  mm_pdp_is_configured-named apn pdps s s1 listed ordered =
      let counted =
        configured_loop-named apn (order pdps) 0 (omega arith)
        ∙ ap (leb 3) (zero_plus _ ∙ named-Perm apn ordered) in
      ap (is_configured h order apn) listed
      ∙ ap (λ b. (answer b, s1)) (if_listed apn pdps _ counted)
