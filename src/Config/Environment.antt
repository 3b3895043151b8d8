-- ===== src/Config/Environment.antt =====
-- What the environment sets.
use code_sandbox.Prelude.{
  ℕ, [], ◌∷◌, ◌≡◌, ◌≢◌, sym, ap, ◌∙◌, [], arith, ℤ, Bytes, bytes_eq_iff, FitsInt64,
}
use code_sandbox.Strings.{itoa}
use code_sandbox.Strings.Parse.{HasOther, atoi, atoi-itoa, atoi-HasOther}
use code_sandbox.Config.{or_fallback, env_int_or}

itoa-ne-nil : (z : ℤ) → FitsInt64 z → itoa z ≢ []
unfolding atoi
itoa-ne-nil z fits q = let r = sym (ap atoi q) ∙ atoi-itoa z fits in cc r

module _ (getenv : Bytes → Bytes) (key : Bytes) (fallback : ℤ) where
  env_read :
      getenv key ≢ [] → env_int_or getenv key fallback ≡ or_fallback (atoi (getenv key)) fallback
  unfolding env_int_or
  env_read h = ground (arith, bytes_eq_iff (getenv key) [])

  env_int_or-printed :
      (z : ℤ) → FitsInt64 z → getenv key ≡ itoa z → env_int_or getenv key fallback ≡ z
  unfolding or_fallback
  env_int_or-printed z fits e =
      env_read (λ q. itoa-ne-nil z fits (sym e ∙ q))
      ∙ ap (λ v. or_fallback (atoi v) fallback) e
      ∙ ap (λ o. or_fallback o fallback) (atoi-itoa z fits)

  env_int_or-HasOther :
      (c : ℕ) (s : Bytes)
      → getenv key ≡ c ∷ s
      → HasOther s
      → env_int_or getenv key fallback ≡ fallback
  unfolding or_fallback
  env_int_or-HasOther c s e h =
      env_read (λ q. let r = sym e ∙ q in cc r)
      ∙ ap (λ v. or_fallback (atoi v) fallback) e
      ∙ ap (λ o. or_fallback o fallback) (atoi-HasOther c s h)

  -- envIntOr gives the number that the variable holds, if it is an int printed in decimal, and the
  -- fallback if a byte after the first is no digit, as in a number with a unit.
  pub env_int_or-itoa :
      ((z : ℤ) → FitsInt64 z → getenv key ≡ itoa z → env_int_or getenv key fallback ≡ z)
      × ((c : ℕ) (s : Bytes)
          → getenv key ≡ c ∷ s
          → HasOther s
          → env_int_or getenv key fallback ≡ fallback)
  env_int_or-itoa = (env_int_or-printed, env_int_or-HasOther)
