-- ===== src/Main/Options.antt =====
-- What the options set.
use mathlib.Core.Path.{subst}
use transproxify.Base.{
  ℕ, ◌≡◌, ◌≢◌, inl, inr, ◌∙◌, refl, sym, List, [], ◌∷◌, true, Option, none, some, arith, Bool-cases,
  All, ◌==◌, if◌then◌else◌,
}
use transproxify.Settings.{ProxyProtocol, ProxiedProtocol}
use transproxify.Main.{
  Config, Step, goes, stops, set_proxy_protocol, set_proxied_protocol, option, options, step_bind,
  proxy_protocol_of, proxied_protocol_of,
}

abbrev or_else {ℓ} : {A : Type ℓ} → Option A → Option A → Option A
or_else none y = y
or_else (some x) y = some x

-- The argument of the last option with a letter.
abbrev pub last_of : ℕ → List (ℕ × List ℕ) → Option (List ℕ)
last_of l [] = none
last_of l ((m, arg) ∷ given) = or_else (last_of l given) (if m == l then some arg else none)

-- What a reading makes of an argument, or the value that is there without one.
abbrev pub picked {ℓ} : {A : Type ℓ} → (List ℕ → Option A) → Option (List ℕ) → A → Option A
picked f none d = some d
picked f (some arg) d = f arg

picked-or_else {ℓ} :
    {A : Type ℓ} (f : List ℕ → Option A) (x y : Option (List ℕ)) (d e r : A)
    → picked f y d ≡ some e
    → picked f x e ≡ some r
    → picked f (or_else x y) d ≡ some r
picked-or_else f none y d e r h k = h ∙ k
picked-or_else f (some arg) y d e r h k = k

-- Each variable has what the last option of its letter says, or else what it had before.
pub record Sets (given : List (ℕ × List ℕ)) (c c' : Config) : Type 0 where
  pub proxy_protocol :
      picked proxy_protocol_of (last_of b't' given) c.proxy_protocol ≡ some c'.proxy_protocol
  pub proxied_protocol :
      picked proxied_protocol_of (last_of b'r' given) c.proxied_protocol ≡ some c'.proxied_protocol
  pub username : picked some (last_of b'u' given) c.username ≡ some c'.username
  pub password : picked some (last_of b'P' given) c.password ≡ some c'.password
  pub prompt_password :
      picked (λ arg. some true) (last_of b'p' given) c.prompt_password ≡ some c'.prompt_password

sets :
    {given : List (ℕ × List ℕ)} {c c' : Config}
    → picked proxy_protocol_of (last_of b't' given) c.proxy_protocol ≡ some c'.proxy_protocol
    → picked proxied_protocol_of (last_of b'r' given) c.proxied_protocol ≡ some c'.proxied_protocol
    → picked some (last_of b'u' given) c.username ≡ some c'.username
    → picked some (last_of b'P' given) c.password ≡ some c'.password
    → picked (λ arg. some true) (last_of b'p' given) c.prompt_password ≡ some c'.prompt_password
    → Sets given c c'
sets p r u w q = record {
  proxy_protocol = p;
  proxied_protocol = r;
  username = u;
  password = w;
  prompt_password = q;
}

-- The options that are accepted.
pub data Good (o : ℕ × List ℕ) : Type 0 where
  good_t : (p : ProxyProtocol) → o.0 ≡ b't' → proxy_protocol_of o.1 ≡ some p → Good o
  good_r : (p : ProxiedProtocol) → o.0 ≡ b'r' → proxied_protocol_of o.1 ≡ some p → Good o
  good_u : o.0 ≡ b'u' → Good o
  good_p : o.0 ≡ b'p' → Good o
  good_upper_p : o.0 ≡ b'P' → Good o

-- All options are accepted, and set what `Sets` tells; or some option is not.
abbrev pub Does : List (ℕ × List ℕ) → Config → Step Config → Type 0
Does given c (goes c') = All Good given × Sets given c c'
Does given c (stops e) = ¬ All Good given

abbrev One : ℕ → List ℕ → Config → Step Config → Type 0
One m arg c s = Does ((m, arg) ∷ []) c s

by_letter :
    (P : Step Config → Type 0) (m k : ℕ) (x y : Step Config)
    → (m ≡ k → P x)
    → (m ≢ k → P y)
    → P (if m == k then x else y)
by_letter P m k x y h j = elim (Bool-cases (m == k)) [
  | inl e ↦ rw e (h (ground arith))
  | inr e ↦ rw e (j (λ i. ground arith))
]

-- An option that is none of the five kinds is not accepted.
bad :
    (m : ℕ) (arg : List ℕ)
    → (m ≡ b't' → (p : ProxyProtocol) → proxy_protocol_of arg ≢ some p)
    → (m ≡ b'r' → (p : ProxiedProtocol) → proxied_protocol_of arg ≢ some p)
    → m ≢ b'u'
    → m ≢ b'p'
    → m ≢ b'P'
    → ¬ Good (m, arg)
bad m arg t r u p up (good_t q e h) = t e q h
bad m arg t r u p up (good_r q e h) = r e q h
bad m arg t r u p up (good_u e) = u e
bad m arg t r u p up (good_p e) = p e
bad m arg t r u p up (good_upper_p e) = up e

set_proxy_protocol-One :
    (arg : List ℕ) (c : Config) (o : Option ProxyProtocol)
    → proxy_protocol_of arg ≡ o
    → One b't' arg c (set_proxy_protocol c o)
unfolding set_proxy_protocol
set_proxy_protocol-One arg c none e = λ (g, _).
    bad b't' arg (λ _ p h. cc) (λ h. omega arith) (omega arith) (omega arith) (omega arith) g
set_proxy_protocol-One arg c (some p) e = ((good_t p refl e, tt), sets e refl refl refl refl)

set_proxied_protocol-One :
    (arg : List ℕ) (c : Config) (o : Option ProxiedProtocol)
    → proxied_protocol_of arg ≡ o
    → One b'r' arg c (set_proxied_protocol c o)
unfolding set_proxied_protocol
set_proxied_protocol-One arg c none e = λ (g, _).
    bad b'r' arg (λ h. omega arith) (λ _ p h. cc) (omega arith) (omega arith) (omega arith) g
set_proxied_protocol-One arg c (some p) e = ((good_r p refl e, tt), sets refl e refl refl refl)

username-One : (arg : List ℕ) (c : Config) → One b'u' arg c (goes (record c { username = arg }))
username-One arg c = ((good_u refl, tt), sets refl refl refl refl refl)

prompt_password-One :
    (arg : List ℕ) (c : Config) → One b'p' arg c (goes (record c { prompt_password = true }))
prompt_password-One arg c = ((good_p refl, tt), sets refl refl refl refl refl)

password-One : (arg : List ℕ) (c : Config) → One b'P' arg c (goes (record c { password = arg }))
password-One arg c = ((good_upper_p refl, tt), sets refl refl refl refl refl)

-- A fact about a letter, at an equal one.
One-at :
    (k m : ℕ) (arg : List ℕ) (c : Config) (s : Step Config) → One k arg c s → m ≡ k → One m arg c s
One-at k m arg c s h e = subst (λ x. One x arg c s) (sym e) h

option-One : (m : ℕ) (arg : List ℕ) (c : Config) → One m arg c (option m arg c)
unfolding option
option-One m arg c =
    by_letter (One m arg c) m b't' _ _
      (One-at b't' m arg c _ (set_proxy_protocol-One arg c (proxy_protocol_of arg) refl))
      λ t.
        by_letter (One m arg c) m b'r' _ _
          (One-at b'r' m arg c _ (set_proxied_protocol-One arg c (proxied_protocol_of arg) refl))
          λ r.
            by_letter (One m arg c) m b'u' _ _
              (One-at b'u' m arg c (goes (record c { username = arg })) (username-One arg c))
              λ u.
                by_letter (One m arg c) m b'p' _ _
                  (One-at b'p' m arg c (goes (record c { prompt_password = true }))
                    (prompt_password-One arg c))
                  λ p.
                    by_letter (One m arg c) m b'P' _ _
                      (One-at b'P' m arg c (goes (record c { password = arg }))
                        (password-One arg c))
                      λ up.
                        by_letter (One m arg c) m b'L' _ _
                          (λ _ (g, _). bad m arg (λ h. absurd (t h)) (λ h. absurd (r h)) u p up g)
                          (λ _ (g, _). bad m arg (λ h. absurd (t h)) (λ h. absurd (r h)) u p up g)

Sets-cons :
    (o : ℕ × List ℕ) (given : List (ℕ × List ℕ)) (c d e : Config)
    → Sets (o ∷ []) c d
    → Sets given d e
    → Sets (o ∷ given) c e
Sets-cons (m, arg) given c d e h k = record {
  proxy_protocol =
      picked-or_else proxy_protocol_of (last_of b't' given) _ c.proxy_protocol d.proxy_protocol
        e.proxy_protocol h.proxy_protocol k.proxy_protocol;
  proxied_protocol =
      picked-or_else proxied_protocol_of (last_of b'r' given) _ c.proxied_protocol
        d.proxied_protocol e.proxied_protocol h.proxied_protocol k.proxied_protocol;
  username =
      picked-or_else some (last_of b'u' given) _ c.username d.username e.username h.username
        k.username;
  password =
      picked-or_else some (last_of b'P' given) _ c.password d.password e.password h.password
        k.password;
  prompt_password =
      picked-or_else (λ arg. some true) (last_of b'p' given) _ c.prompt_password d.prompt_password
        e.prompt_password h.prompt_password k.prompt_password;
}

Does-bind :
    (o : ℕ × List ℕ) (given : List (ℕ × List ℕ)) (c : Config) (s : Step Config)
    → Does (o ∷ []) c s
    → ((d : Config) → Does given d (options given d))
    → Does (o ∷ given) c (step_bind s (options given))
Does-bind o given c (stops e) h k = λ (g, gs). h (g, tt)
Does-bind o given c (goes d) (g, h) k = Does-then (options given d) (k d)
  where
    Does-then : (s : Step Config) → Does given d s → Does (o ∷ given) c s
    Does-then (goes e) (gs, j) = ((g.0, gs), Sets-cons o given c d e h j)
    Does-then (stops e) j = λ (g', gs). j gs

-- If every option is accepted, each variable is set by the last option of its letter, and has its
-- first value without one, in whatever order the options of different letters stand. Else the
-- program stops.
pub options-Does : (given : List (ℕ × List ℕ)) (c : Config) → Does given c (options given c)
unfolding options
options-Does [] c = (tt, sets refl refl refl refl refl)
options-Does ((m, arg) ∷ given) c =
    Does-bind (m, arg) given c (option m arg c) (option-One m arg c) (options-Does given)
