-- ===== src/Socks5/Greeting.antt =====
-- The greeting as a function of the bytes that the proxy sends (RFC 1928 and RFC 1929).
use mathlib.Core.List.{flatten}
use transproxify.Base.{
  ℕ, suc, le→leb, Bool-cases, inl, inr, ◌%◌, ◌≤◌, ◌≡◌, refl, List, [], ◌∷◌, ◌++◌, arith, length,
  get_or, take, is_empty, ◌==◌, if◌then◌else◌, Outcome, ok, throw, length-append, append-nil, ap,
  zero,
}
use native.Mathlib.Nat.{le_refl}
use transproxify.Settings.{ProxySettings}
use transproxify.Wire.{Socket, pending, Willing}
use transproxify.Upstream.Refines.{
  Transcript, Shows, Refines, pure_t, fail_t, bind_t, send_t, require_t, pure-Refines, fail-Refines,
  require-Refines, bind-Refines, receive-Refines, if-Refines, Refines-ext,
}
use transproxify.Upstream.Packets.{send_small-Refines}
use transproxify.Socks5.{authenticate, use_method, socks5_greet_and_authenticate}

-- `ProxySettings` has checked the lengths.
abbrev pub Fits : ProxySettings → Type 0
Fits settings = (length settings.username ≤ 255) × (length settings.password ≤ 255)

-- The request of RFC 1929.
abbrev pub credentials : ProxySettings → List ℕ
credentials settings =
    1
    ∷ length settings.username
    ∷ (settings.username ++ (length settings.password ∷ settings.password))

abbrev pub answer : {A : Type 0} → Outcome A → List ℕ → List ℕ → Transcript A
answer outcome rest sent = record { outcome = outcome; rest = rest; sent = sent }

-- The reply to the credentials: a version and a status.
abbrev pub auth_reply : List ℕ → List ℕ → Transcript (Unit {0})
auth_reply sent [] = answer (throw "read from upstream proxy failed during authentication") [] sent
auth_reply sent (version ∷ []) =
    answer
      (throw (
        if version == 1
        then "read from upstream proxy failed during authentication"
        else "upstream proxy protocol mismatch"))
      [] sent
auth_reply sent (version ∷ status ∷ rest) =
    if version == 1
    then answer (if status == 0 then ok tt else throw "upstream proxy authentication failure") rest
        sent
    else answer (throw "upstream proxy protocol mismatch") (status ∷ rest) sent

take_all : (n : ℕ) (xs : List ℕ) → length xs ≤ n → take n xs ≡ xs
take_all zero [] h = refl
take_all (suc n) [] h = refl
take_all zero (x ∷ xs) h = elim h [ ]
take_all (suc n) (x ∷ xs) h = ap (λ r. x ∷ r) (take_all n xs (omega arith))

byte_length : (xs : List ℕ) → length xs ≤ 255 → length xs % 256 ≡ length xs
byte_length xs h = omega arith

authenticate-Refines :
    (settings : ProxySettings)
    → Fits settings
    → Refines (authenticate settings) (auth_reply (credentials settings))
unfolding authenticate flatten
authenticate-Refines settings h =
    Refines-ext
      (bind-Refines
        (send_small-Refines _ _ (credentials settings)
          (rw (
            byte_length settings.username h.0,
            byte_length settings.password h.1,
            take_all _ settings.username (le_refl _),
            take_all _ settings.password (le_refl _),
            append-nil,
          ))
          (omega (
            arith,
            length-append settings.username (length settings.password ∷ settings.password),
          )))
        λ _. bind-Refines (receive-Refines 1 _) λ version.
          bind-Refines (require-Refines _ _)
            λ _. bind-Refines (receive-Refines 1 _) λ status. require-Refines _ _)
      (elim [
        | [] ↦ ground (arith, append-nil (credentials settings))
        | v ∷ [] ↦ ground (arith, append-nil (credentials settings))
        | v ∷ status ∷ rest ↦ ground (arith, append-nil (credentials settings))
      ])

-- What is offered: no authentication, and username and password if there is a username.
abbrev pub offer : ProxySettings → List ℕ
offer settings = if is_empty settings.username then 5 ∷ 1 ∷ 0 ∷ [] else 5 ∷ 2 ∷ 0 ∷ 2 ∷ []

-- The reply to the offer: a version and a method, and what the method asks for.
abbrev pub greeting_reply : ProxySettings → List ℕ → Transcript (Unit {0})
greeting_reply settings [] =
    answer (throw "read from upstream proxy failed during auth negotiation") [] (offer settings)
greeting_reply settings (version ∷ []) =
    answer (throw "read from upstream proxy failed during auth negotiation") [] (offer settings)
greeting_reply settings (version ∷ method ∷ rest) =
    if version == 5
    then if method == 0x00
      then answer (ok tt) rest (offer settings)
      else if method == 0x02
      then (if is_empty settings.username
          then answer
              (throw
                "upstream proxy selected username and password authentication where no authentication was expected")
              rest (offer settings)
          else auth_reply (offer settings ++ credentials settings) rest)
      else answer
          (throw (
            if method == 0xff
            then "upstream proxy no authentication method"
            else "upstream proxy protocol mismatch"))
          rest (offer settings)
    else answer (throw "upstream proxy protocol mismatch") rest (offer settings)

abbrev method_reply : ProxySettings → ℕ → List ℕ → Transcript (Unit {0})
method_reply settings method =
    if method == 0x00
    then pure_t tt
    else if method == 0x02
    then (if is_empty settings.username
        then fail_t
            "upstream proxy selected username and password authentication where no authentication was expected"
        else auth_reply (credentials settings))
    else if method == 0xff
    then fail_t "upstream proxy no authentication method"
    else fail_t "upstream proxy protocol mismatch"

use_method-Refines :
    (settings : ProxySettings) (method : ℕ)
    → Fits settings
    → Refines (use_method settings method) (method_reply settings method)
unfolding use_method
use_method-Refines settings method h = if-Refines (method == 0x00) (pure-Refines tt) (
    if-Refines (method == 0x02)
      (if-Refines (is_empty settings.username) (fail-Refines _) (authenticate-Refines settings h))
      (if-Refines (method == 0xff) (fail-Refines _) (fail-Refines _)))

auth_reply-append :
    (first second p : List ℕ)
    → record (auth_reply second p) { sent = first ++ (auth_reply second p).sent }
      ≡ auth_reply (first ++ second) p
auth_reply-append first second [] = refl
auth_reply-append first second (v ∷ []) = refl
auth_reply-append first second (v ∷ status ∷ rest) = ground arith

chosen :
    (settings : ProxySettings) (version method : ℕ) (rest : List ℕ)
    → bind_t
        (send_t (offer settings))
        (λ _.
          bind_t
            (require_t (version == 5) "upstream proxy protocol mismatch")
            (λ _. method_reply settings method))
        rest
      ≡ greeting_reply settings (version ∷ method ∷ rest)
chosen settings version method rest =
    let bare = append-nil (offer settings) in
    elim (Bool-cases (version == 5)) [
      | inr e ↦ rw e (rw bare)
      | inl e ↦ rw e (elim (Bool-cases (method == 0x00)) [
        | inl m ↦ rw m (rw bare)
        | inr m ↦ rw m (elim (Bool-cases (method == 0x02)) [
          | inr n ↦ rw n (elim (Bool-cases (method == 0xff)) [
            | inl k ↦ rw k (rw bare)
            | inr k ↦ rw k (rw bare)
          ])
          | inl n ↦ rw n (elim (Bool-cases (is_empty settings.username)) [
            | inl k ↦ rw k
            | inr k ↦ rw k (auth_reply-append (5 ∷ 2 ∷ 0 ∷ 2 ∷ []) (credentials settings) rest)
          ])
        ])
      ])
    ]

-- The pieces put together.
pub greeting-Refines :
    (settings : ProxySettings)
    → Fits settings
    → Refines (socks5_greet_and_authenticate settings) (greeting_reply settings)
unfolding socks5_greet_and_authenticate flatten
greeting-Refines settings h =
    Refines-ext
      (bind-Refines (send_small-Refines _ _ (offer settings) (ground arith) (ground arith)) λ _.
        bind-Refines (receive-Refines 2 _) λ response.
          bind-Refines (require-Refines _ _)
            λ _. use_method-Refines settings (get_or response 1 0) h)
      (elim [
        | [] ↦ ground (arith, append-nil (offer settings))
        | v ∷ [] ↦ ground (arith, append-nil (offer settings))
        | version ∷ method ∷ rest ↦
            rw (le→leb 2 (suc (suc (length rest))) (omega arith))
              (chosen settings version method rest)
      ])

-- If the credentials fit their length bytes and the kernel refuses no write, then the greeting does
-- what `greeting_reply` tells of the bytes to come, whatever the chunks they arrive in: its result
-- or its error, the bytes left unread and the bytes sent, the credentials only if the proxy chose
-- that method.
pub socks5_greet_and_authenticate_lem :
    (settings : ProxySettings) (s : Socket)
    → Fits settings
    → Willing s.answers
    → Shows s.sent (socks5_greet_and_authenticate settings s) (greeting_reply settings (pending s))
socks5_greet_and_authenticate_lem settings s h w = (greeting-Refines settings h).shows s w
