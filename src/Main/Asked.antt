-- ===== src/Main/Asked.antt =====
-- What the command line asks for, by the words of the usage text.
use transproxify.Base.{
  ℕ, ◌≡◌, ◌≢◌, ◌⊎◌, inl, inr, refl, sym, ap, ◌∙◌, List, [], ◌∷◌, Bool, true, false, codes, Option,
  none, some, some-injective, arith,
}
use transproxify.Base.{take}
use transproxify.Base.Int.{ℤ, to_uint16}
use transproxify.Address.{Hostent, word, htons}
use transproxify.Settings.{
  ProxyProtocol, direct, http, socks4, socks5, ProxiedProtocol, tcp, udp, ProxySettings,
}
use transproxify.Main.{
  Config, default_config, same_text, proxy_protocol_of, proxied_protocol_of, number, stoi, prompt,
  ask,
}
use transproxify.Main.Options.{last_of, picked, Sets}

-- The argument of the last option, if there is one, names the protocol; else it is the default.
abbrev pub Proxied : ProxiedProtocol → Option (List ℕ) → Type 0
Proxied tcp o = (o ≡ none) ⊎ (o ≡ some (codes "tcp"))
Proxied udp o = o ≡ some (codes "udp")

abbrev pub Upstream : ProxyProtocol → Option (List ℕ) → Type 0
Upstream direct o = o ≡ some (codes "direct")
Upstream http o = (o ≡ none) ⊎ (o ≡ some (codes "http"))
Upstream socks4 o = o ≡ some (codes "socks4")
Upstream socks5 o = o ≡ some (codes "socks5")

abbrev pub or_empty : Option (List ℕ) → List ℕ
or_empty none = []
or_empty (some text) = text

-- The password is the one that is typed, with the option -p, or else that of the last option -P.
abbrev pub Password : List (ℕ × List ℕ) → List ℕ → List ℕ → Type 0
Password given input password =
    ((last_of b'p' given ≢ none) × ((prompt input true).0 ≡ some password))
    ⊎ ((last_of b'p' given ≡ none) × (password ≡ or_empty (last_of b'P' given)))

same_text-eq : (xs ys : List ℕ) → same_text xs ys ≡ true → xs ≡ ys
same_text-eq [] [] h = refl
same_text-eq [] (y ∷ ys) h = cc
same_text-eq (x ∷ xs) [] h = cc
same_text-eq (x ∷ xs) (y ∷ ys) h = ground (arith, same_text-eq xs ys)

pub picked-Proxied :
    (o : Option (List ℕ)) (r : ProxiedProtocol)
    → picked proxied_protocol_of o tcp ≡ some r
    → Proxied r o
picked-Proxied none tcp h = inl refl
picked-Proxied none udp h = cc
picked-Proxied (some text) tcp h =
    inr (ap some (same_text-eq text (codes "tcp") (ground (arith, h))))
picked-Proxied (some text) udp h = ap some (same_text-eq text (codes "udp") (ground (arith, h)))

pub picked-Upstream :
    (o : Option (List ℕ)) (p : ProxyProtocol)
    → picked proxy_protocol_of o http ≡ some p
    → Upstream p o
picked-Upstream none direct h = cc
picked-Upstream none http h = inl refl
picked-Upstream none socks4 h = cc
picked-Upstream none socks5 h = cc
picked-Upstream (some text) direct h =
    ap some (same_text-eq text (codes "direct") (ground (arith, h)))
picked-Upstream (some text) http h =
    inr (ap some (same_text-eq text (codes "http") (ground (arith, h))))
picked-Upstream (some text) socks4 h =
    ap some (same_text-eq text (codes "socks4") (ground (arith, h)))
picked-Upstream (some text) socks5 h =
    ap some (same_text-eq text (codes "socks5") (ground (arith, h)))

picked-or_empty :
    (o : Option (List ℕ)) (text : List ℕ) → picked some o [] ≡ some text → text ≡ or_empty o
picked-or_empty none text h = sym (some-injective h)
picked-or_empty (some arg) text h = sym (some-injective h)

-- Whether the option -p is there.
asked_prompt :
    (o : Option (List ℕ)) (flag : Bool)
    → picked (λ arg. some true) o false ≡ some flag
    → ((flag ≡ true) × (o ≢ none)) ⊎ ((flag ≡ false) × (o ≡ none))
asked_prompt none flag h = inr (sym (some-injective h), refl)
asked_prompt (some arg) flag h = inl (sym (some-injective h), λ e. cc)

-- Of the three operands, the settings have the address of the host and the port of the upstream
-- proxy; the last is the port to listen at.
abbrev pub Operands : (List ℕ → Option Hostent) → List (List ℕ) → ProxySettings → ℤ → Type 0
Operands gethostbyname others s port =
    (host : List ℕ) × (proxy_port : List ℕ) × (listen_port : List ℕ) × (others
      ≡ host ∷ proxy_port ∷ listen_port ∷ [])
    × ((server : Hostent) × (gethostbyname host ≡ some server)
        × (s.proxy_address.s_addr ≡ word (take 4 server.h_addr)))
    × ((p : ℤ) × (stoi proxy_port ≡ number p) × (s.proxy_address.sin_port ≡ htons (to_uint16 p)))
    × (stoi listen_port ≡ number port)

-- What the settings, and the port to listen at, have from the command line and the standard input.
pub record Asked (gethostbyname : List ℕ → Option Hostent) (given : List (ℕ × List ℕ))
    (others : List (List ℕ)) (input : List ℕ) (s : ProxySettings) (port : ℤ) : Type 0 where
  pub proxied : Proxied s.proxied_protocol (last_of b'r' given)
  pub upstream : Upstream s.proxy_protocol (last_of b't' given)
  pub username : s.username ≡ or_empty (last_of b'u' given)
  pub password : Password given input s.password
  pub addresses : Operands gethostbyname others s port

module _ (given : List (ℕ × List ℕ)) (input : List ℕ) (c : Config)
    (set : Sets given default_config c) where
  pub ask-Password :
      (echo : Bool) (w : List ℕ) → (ask c input echo).0 ≡ some w → Password given input w
  unfolding ask prompt
  ask-Password echo w e =
      elim (asked_prompt (last_of b'p' given) c.prompt_password set.prompt_password) [
        | inl (flag, there) ↦ inl (there, rw flag at e)
        | inr (flag, missing) ↦
            let same : c.password ≡ w = some-injective (rw flag at e) in
            inr (missing, sym same ∙ picked-or_empty (last_of b'P' given) c.password set.password)
      ]

  pub set-Asked :
      (gethostbyname : List ℕ → Option Hostent) (others : List (List ℕ)) (s : ProxySettings)
      (port : ℤ)
      → s.proxied_protocol ≡ c.proxied_protocol
      → s.proxy_protocol ≡ c.proxy_protocol
      → s.username ≡ c.username
      → Password given input s.password
      → Operands gethostbyname others s port
      → Asked gethostbyname given others input s port
  set-Asked gethostbyname others s port r p u w places = record {
    proxied = rw r (picked-Proxied (last_of b'r' given) c.proxied_protocol set.proxied_protocol);
    upstream = rw p (picked-Upstream (last_of b't' given) c.proxy_protocol set.proxy_protocol);
    username = u ∙ picked-or_empty (last_of b'u' given) c.username set.username;
    password = w;
    addresses = places;
  }
