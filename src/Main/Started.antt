-- ===== src/Main/Started.antt =====
-- With which settings the servers are started.
use mathlib.Core.Path.{subst}
use transproxify.Base.{
  ◌==◌, if◌then◌else◌, ℕ, ◌≡◌, ◌⊎◌, inl, inr, refl, sym, List, [], ◌∷◌, Bool, true, false, Option,
  none, some, Outcome, ok, throw, arith,
}
use transproxify.Base.Int.{ℤ}
use transproxify.Address.{Hostent, af_inet}
use transproxify.Settings.{
  ProxyProtocol, direct, http, socks4, socks5, ProxiedProtocol, tcp, udp, ProxySettings,
  new_settings,
}
use transproxify.Settings.{proxy_address_of}
use transproxify.Settings.Valid.{Allows, asked, new_settings_iff, asked_lem}
use transproxify.Main.Asked.{Asked, Password, ask-Password, set-Asked}
use transproxify.Main.Options.{Sets, Does, options-Does}
use transproxify.Main.{
  Ending, exits, uncaught, tcp_server, udp_server, Config, Parsed, number, invalid_argument,
  out_of_range, Step, goes, stops, set_proxy_protocol, set_proxied_protocol, option, options,
  step_bind, run_server, with_password, numbers, operands, ask, main, stoi, default_config, prompt,
  proxy_protocol_of, proxied_protocol_of,
}

-- The settings are for the server, and allowed by the protocol of the upstream proxy.
abbrev pub Fitting : ProxiedProtocol → ProxySettings → Type 0
Fitting proxied s =
    (s.proxied_protocol ≡ proxied)
    × (s.proxy_address.sin_family ≡ af_inet)
    × Allows s.proxy_protocol proxied s.username s.password

-- How the program may go on: it exits with 0 or 1, ends by an exception, or runs the server that
-- the command line asks for with settings that are those asked for and fitting; a UDP server with
-- no protocol but direct and SOCKS5.
abbrev pub Sound :
    (List ℕ → Option Hostent) → List (ℕ × List ℕ) → List (List ℕ) → List ℕ → Ending → Type 0
Sound gethostbyname given others input (exits n) = (n ≡ 0) ⊎ (n ≡ 1)
Sound gethostbyname given others input (uncaught e) = Unit
Sound gethostbyname given others input (tcp_server s port) =
    Fitting tcp s × Asked gethostbyname given others input s port
Sound gethostbyname given others input (udp_server s port) =
    Fitting udp s
    × ((s.proxy_protocol ≡ direct) ⊎ (s.proxy_protocol ≡ socks5))
    × Asked gethostbyname given others input s port

udp_protocol : (p : ProxyProtocol) (u w : List ℕ) → Allows p udp u w → (p ≡ direct) ⊎ (p ≡ socks5)
udp_protocol direct u w h = inl refl
udp_protocol http u w h = absurd h
udp_protocol socks4 u w h = absurd h
udp_protocol socks5 u w h = inr refl

-- An option never starts a server.
abbrev Stopped : Ending → Type 0
Stopped (exits n) = (n ≡ 0) ⊎ (n ≡ 1)
Stopped _ = ⊥

Stopped-Sound :
    (gethostbyname : List ℕ → Option Hostent) (given : List (ℕ × List ℕ)) (others : List (List ℕ))
    (input : List ℕ) (e : Ending)
    → Stopped e
    → Sound gethostbyname given others input e
Stopped-Sound gethostbyname given others input (exits n) h = h
Stopped-Sound gethostbyname given others input (uncaught e) h = tt
Stopped-Sound gethostbyname given others input (tcp_server s port) h = absurd h
Stopped-Sound gethostbyname given others input (udp_server s port) h = absurd h

abbrev Stops {ℓ} : {A : Type ℓ} → Step A → Type 0
Stops (goes a) = Unit
Stops (stops e) = Stopped e

if-Stops {ℓ} :
    {A : Type ℓ} (b : Bool) (x y : Step A) → Stops x → Stops y → Stops (if b then x else y)
if-Stops true x y h k = h
if-Stops false x y h k = k

proxy_protocol-Stops : (c : Config) (p : Option ProxyProtocol) → Stops (set_proxy_protocol c p)
unfolding set_proxy_protocol
proxy_protocol-Stops c none = inr refl
proxy_protocol-Stops c (some p) = tt

proxied_protocol-Stops :
    (c : Config) (p : Option ProxiedProtocol) → Stops (set_proxied_protocol c p)
unfolding set_proxied_protocol
proxied_protocol-Stops c none = inr refl
proxied_protocol-Stops c (some p) = tt

option-Stops : (letter : ℕ) (optarg : List ℕ) (c : Config) → Stops (option letter optarg c)
unfolding option
option-Stops letter optarg c =
    if-Stops (letter == b't') _ _ (proxy_protocol-Stops c (proxy_protocol_of optarg)) (
      if-Stops (letter == b'r') _ _ (proxied_protocol-Stops c (proxied_protocol_of optarg)) (
        if-Stops (letter == b'u') _ _ tt (
          if-Stops (letter == b'p') _ _ tt (
            if-Stops (letter == b'P') _ _ tt
              (if-Stops (letter == b'L') _ _ (inl refl) (inr refl))))))

bind-Stops {ℓ κ} :
    {A : Type ℓ} {B : Type κ} (m : Step A) (f : A → Step B)
    → Stops m
    → ((a : A) → Stops (f a))
    → Stops (step_bind m f)
bind-Stops (goes a) f h k = k a
bind-Stops (stops e) f h k = h

options-Stops : (given : List (ℕ × List ℕ)) (c : Config) → Stops (options given c)
unfolding options
options-Stops [] c = tt
options-Stops ((letter, optarg) ∷ given) c =
    bind-Stops (option letter optarg c) (options given) (option-Stops letter optarg c)
      (options-Stops given)

module _ (gethostbyname : List ℕ → Option Hostent) (given : List (ℕ × List ℕ))
    (others : List (List ℕ)) (input : List ℕ) where
  server-Sound :
      (r : ProxiedProtocol) (port : ℤ) (o : Outcome ProxySettings)
      → ((s : ProxySettings)
          → o ≡ ok s
          → Fitting r s × Asked gethostbyname given others input s port)
      → Sound gethostbyname given others input (run_server r port o)
  unfolding run_server
  server-Sound r port (throw e) h = tt
  server-Sound tcp port (ok s) h = h s refl
  server-Sound udp port (ok s) h =
      let (f, asked) = h s refl in
      (f, udp_protocol s.proxy_protocol s.username s.password f.2, asked)

  -- The program goes on soundly, and the terminal echoes if it did.
  Fine : Bool → Ending × Bool → Type 0
  Fine echo x = Sound gethostbyname given others input x.0 × (echo ≡ true → x.1 ≡ true)

  module _ (c : Config) (set : Sets given default_config c) where
    settings-Fitting :
        (host proxy_port listen_port : List ℕ) (port listen : ℤ) (w : List ℕ) (s : ProxySettings)
        → Password given input w
        → others ≡ host ∷ proxy_port ∷ listen_port ∷ []
        → stoi proxy_port ≡ number port
        → stoi listen_port ≡ number listen
        → new_settings gethostbyname c.proxy_protocol c.proxied_protocol host port c.username w
          ≡ ok s
        → Fitting c.proxied_protocol s × Asked gethostbyname given others input s listen
    unfolding asked proxy_address_of
    settings-Fitting host proxy_port listen_port port listen w s known operands_are dial read h =
        let p = c.proxy_protocol in
        let r = c.proxied_protocol in
        let (server, found, family, allowed, e) =
          (new_settings_iff gethostbyname p r host port c.username w s).0 h in
        subst (λ t. Fitting r t × Asked gethostbyname given others input t listen) (sym e)
          (
            asked_lem server p r port c.username w allowed,
            set-Asked given input c set gethostbyname others (asked server p r port c.username w)
                listen refl refl refl known
                (
                  host,
                  proxy_port,
                  listen_port,
                  operands_are,
                  (server, found, refl),
                  (port, dial, refl),
                  read,
                ),
          )

    with_password-Fine :
        (host proxy_port listen_port : List ℕ) (port listen : ℤ) (echo : Bool)
        (o : Option (List ℕ) × Bool)
        → others ≡ host ∷ proxy_port ∷ listen_port ∷ []
        → stoi proxy_port ≡ number port
        → stoi listen_port ≡ number listen
        → ((w : List ℕ) → o.0 ≡ some w → Password given input w)
        → (echo ≡ true → o.1 ≡ true)
        → Fine echo (with_password gethostbyname c host port listen o)
    unfolding with_password Fine
    with_password-Fine host proxy_port listen_port port listen echo (none, e) are dial read known
          h =
        (inr refl, h)
    with_password-Fine host proxy_port listen_port port listen echo (some w, e) are dial read known
          h =
        (
          server-Sound c.proxied_protocol listen _ (λ s.
              settings-Fitting host proxy_port listen_port port listen w s (known w refl) are dial
                read),
          h,
        )

    ask-Fine : (echo : Bool) → echo ≡ true → (ask c input echo).1 ≡ true
    unfolding ask prompt
    ask-Fine echo h = ground arith

    numbers-Fine :
        (host proxy_port listen_port : List ℕ) (echo : Bool) (p l : Parsed)
        → others ≡ host ∷ proxy_port ∷ listen_port ∷ []
        → stoi proxy_port ≡ p
        → stoi listen_port ≡ l
        → Fine echo (numbers gethostbyname c host input echo p l)
    unfolding numbers Fine
    numbers-Fine host pp lp echo invalid_argument l are dial read = (inr refl, λ h. h)
    numbers-Fine host pp lp echo out_of_range l are dial read = (tt, λ h. h)
    numbers-Fine host pp lp echo (number p) invalid_argument are dial read = (inr refl, λ h. h)
    numbers-Fine host pp lp echo (number p) out_of_range are dial read = (tt, λ h. h)
    numbers-Fine host pp lp echo (number p) (number l) are dial read =
        with_password-Fine host pp lp p l echo (ask c input echo) are dial read
          (ask-Password given input c set echo) (ask-Fine echo)

  operands-Fine :
      (them : List (List ℕ)) (echo : Bool) (o : Step Config)
      → others ≡ them
      → Stops o
      → Does given default_config o
      → Fine echo (operands gethostbyname them input echo o)
  unfolding operands Fine
  operands-Fine them echo (stops e) are h does =
      (Stopped-Sound gethostbyname given others input e h, λ k. k)
  operands-Fine [] echo (goes c) are h does = (inr refl, λ k. k)
  operands-Fine (a ∷ []) echo (goes c) are h does = (inr refl, λ k. k)
  operands-Fine (a ∷ b ∷ []) echo (goes c) are h does = (inr refl, λ k. k)
  operands-Fine (host ∷ p ∷ l ∷ []) echo (goes c) are h does =
      numbers-Fine c does.1 host p l echo (stoi p) (stoi l) are refl refl
  operands-Fine (a ∷ b ∷ c' ∷ d ∷ rest) echo (goes c) are h does = (inr refl, λ k. k)

  main-Fine : (echo : Bool) → Fine echo (main gethostbyname given others input echo)
  unfolding main
  main-Fine echo =
      operands-Fine others echo (options given default_config) refl (options-Stops given _)
        (options-Does given default_config)

  -- On every command line and input, `main` exits with 0 or 1, ends by an exception, or starts a
  -- server. Then the server is that of the protocol that the last option -r names, TCP without one,
  -- at the port that the third operand begins with. Its settings have the address of the host that
  -- the first operand names, at the port that the second begins with, the upstream protocol that
  -- the last option -t names, HTTP without one, the last username given, and the password that is
  -- typed, with the option -p, or else the last one given; and the upstream protocol allows them.
  -- The UDP server starts only with direct connections or SOCKS5, so that its case of an invalid
  -- proxy protocol is not reached. If the terminal echoes at the start, it echoes again at the end.
  pub main-Sound :
      (echo : Bool)
      → Sound gethostbyname given others input (main gethostbyname given others input echo).0
        × ((main gethostbyname given others input true).1 ≡ true)
  unfolding Fine
  main-Sound echo = ((main-Fine echo).0, (main-Fine true).1 refl)
