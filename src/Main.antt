-- ===== src/Main.antt =====
-- main.cpp: the command line. The results of getopt are an input: each option's letter with its
-- argument, and the operands that are left. So are the bytes of the standard input.
pub mod Number
pub mod Prompt
pub mod Options
pub mod Asked
pub mod Started
pub mod Delivery
use transproxify.Base.{
  ℕ, zero, suc, ◌+◌, ◌-◌, ◌*◌, ◌^◌, String, codes, List, [], ◌∷◌, Bool, true, false, not, ◌&&◌,
  ◌||◌, Option, none, some, is_empty, ltb, leb, ◌==◌, if◌then◌else◌, Outcome, ok, throw,
}
use transproxify.Base.Int.{ℤ, pos, negsuc}
use transproxify.Address.{Hostent}
use transproxify.Http.{is_digit}
use transproxify.Socks5.{c_string}
use transproxify.Settings.{
  ProxyProtocol, direct, http, socks4, socks5, ProxiedProtocol, tcp, udp, ProxySettings,
  new_settings,
}

-- How the program ends, or which server runs with which settings at which port.
pub data Ending : Type 0 where
  exits : ℕ → Ending
  uncaught : String → Ending
  tcp_server udp_server : ProxySettings → ℤ → Ending

-- The variables that the options set.
pub record Config : Type 0 where
  pub proxy_protocol : ProxyProtocol
  pub proxied_protocol : ProxiedProtocol
  pub username : List ℕ
  pub password : List ℕ
  pub prompt_password : Bool

abbrev pub default_config : Config
default_config = record {
  proxy_protocol = http;
  proxied_protocol = tcp;
  username = [];
  password = [];
  prompt_password = false;
}

-- `strcmp` finds no difference.
abbrev pub same_text : List ℕ → List ℕ → Bool
same_text [] [] = true
same_text [] (y ∷ ys) = false
same_text (x ∷ xs) [] = false
same_text (x ∷ xs) (y ∷ ys) = x == y && same_text xs ys

-- The protocols by their names on the command line.
abbrev pub proxy_protocol_of : List ℕ → Option ProxyProtocol
proxy_protocol_of text =
    if same_text text (codes "direct")
    then some direct
    else if same_text text (codes "http")
    then some http
    else if same_text text (codes "socks4")
    then some socks4
    else if same_text text (codes "socks5")
    then some socks5
    else none

abbrev pub proxied_protocol_of : List ℕ → Option ProxiedProtocol
proxied_protocol_of text =
    if same_text text (codes "tcp")
    then some tcp
    else if same_text text (codes "udp")
    then some udp
    else none

-- Go on with the value, or exit.
pub data Step {ℓ} (A : Type ℓ) : Type ℓ where
  goes : A → Step A
  stops : Ending → Step A

set_proxy_protocol : Config → Option ProxyProtocol → Step Config
set_proxy_protocol c none = stops (exits 1)
set_proxy_protocol c (some p) = goes (record c { proxy_protocol = p })

set_proxied_protocol : Config → Option ProxiedProtocol → Step Config
set_proxied_protocol c none = stops (exits 1)
set_proxied_protocol c (some p) = goes (record c { proxied_protocol = p })

-- The switch over the option's letter.
unfoldable pub option : ℕ → List ℕ → Config → Step Config
unfolding set_proxy_protocol set_proxied_protocol
option letter optarg c =
    if letter == b't'
    then set_proxy_protocol c (proxy_protocol_of optarg)
    else if letter == b'r'
    then set_proxied_protocol c (proxied_protocol_of optarg)
    else if letter == b'u'
    then goes (record c { username = optarg })
    else if letter == b'p'
    then goes (record c { prompt_password = true })
    else if letter == b'P'
    then goes (record c { password = optarg })
    else if letter == b'L'
    then stops (exits 0)
    else stops (exits 1)

abbrev pub step_bind {ℓ κ} : {A : Type ℓ} {B : Type κ} → Step A → (A → Step B) → Step B
step_bind (goes a) f = f a
step_bind (stops e) f = stops e

-- `while ((c = getopt(...)) != -1)`
unfoldable pub options : List (ℕ × List ℕ) → Config → Step Config
unfolding option
options [] c = goes c
options ((letter, optarg) ∷ given) c = step_bind (option letter optarg c) (options given)

-- What `std::stoi` gives: a number, or one of its two exceptions.
pub data Parsed : Type 0 where
  number : ℤ → Parsed
  invalid_argument out_of_range : Parsed

abbrev pub is_space : ℕ → Bool
is_space b = b == b' ' || (leb 9 b && leb b 13)

abbrev pub skip_spaces : List ℕ → List ℕ
skip_spaces [] = []
skip_spaces (b ∷ bs) = let rest = skip_spaces bs in if is_space b then rest else b ∷ bs

-- The digits up to the first byte that is none.
abbrev pub value : ℕ → List ℕ → ℕ
value n [] = n
value n (b ∷ bs) = let rest = value (10 * n + (b - b'0')) bs in if is_digit b then rest else n

abbrev pub starts_with_digit : List ℕ → Bool
starts_with_digit [] = false
starts_with_digit (b ∷ bs) = is_digit b

-- Whether the number is an int.
abbrev pub in_range : Bool → ℕ → Parsed
in_range false n = if ltb n (2 ^ 31) then number (pos n) else out_of_range
in_range true zero = number (pos 0)
in_range true (suc n) = if ltb n (2 ^ 31) then number (negsuc n) else out_of_range

abbrev pub digits : Bool → List ℕ → Parsed
digits negative text =
    if starts_with_digit text then in_range negative (value 0 text) else invalid_argument

abbrev pub with_sign : List ℕ → Parsed
with_sign [] = invalid_argument
with_sign (b ∷ bs) =
    if b == b'-'
    then digits true bs
    else if b == b'+'
    then digits false bs
    else digits false (b ∷ bs)

unfoldable pub stoi : List ℕ → Parsed
stoi text = with_sign (skip_spaces text)

-- `std::cin.getline(passwordCstr, 256)`: the bytes stored, and whether it fails.
unfoldable pub read_line : ℕ → List ℕ → List ℕ × Bool
read_line room [] = ([], false)
read_line zero (b ∷ bs) = ([], not (b == b'\n'))
read_line (suc room) (b ∷ bs) =
    let (line, failed) = read_line room bs in if b == b'\n' then ([], false) else (b ∷ line, failed)

-- The password, if it could be read, and whether the terminal echoes afterwards.
unfoldable pub prompt : List ℕ → Bool → Option (List ℕ) × Bool
unfolding read_line
prompt input echo =
    let (line, failed) = read_line 255 input in
    (if failed || is_empty input then none else some (c_string line), true)

-- The password that is used.
pub ask : Config → List ℕ → Bool → Option (List ℕ) × Bool
unfolding prompt
ask c input echo =
    let asked = prompt input echo in if c.prompt_password then asked else (some c.password, echo)

-- The switch over the proxied protocol.
run_server : ProxiedProtocol → ℤ → Outcome ProxySettings → Ending
run_server proxied port (throw e) = uncaught e
run_server tcp port (ok settings) = tcp_server settings port
run_server udp port (ok settings) = udp_server settings port

module _ (gethostbyname : List ℕ → Option Hostent) where
  -- From the settings on, with the password if there is one.
  with_password : Config → List ℕ → ℤ → ℤ → Option (List ℕ) × Bool → Ending × Bool
  unfolding run_server
  with_password c host proxy_port listen_port (none, echo) = (exits 1, echo)
  with_password c host proxy_port listen_port (some password, echo) = (
    run_server c.proxied_protocol listen_port (
        new_settings gethostbyname c.proxy_protocol c.proxied_protocol host proxy_port c.username
          password),
    echo,
  )

  -- The numbers are read in order; `catch` takes only std::invalid_argument.
  numbers : Config → List ℕ → List ℕ → Bool → Parsed → Parsed → Ending × Bool
  unfolding with_password ask
  numbers c host input echo invalid_argument listen = (exits 1, echo)
  numbers c host input echo out_of_range listen = (uncaught "stoi", echo)
  numbers c host input echo (number proxy_port) invalid_argument = (exits 1, echo)
  numbers c host input echo (number proxy_port) out_of_range = (uncaught "stoi", echo)
  numbers c host input echo (number proxy_port) (number listen_port) =
      with_password c host proxy_port listen_port (ask c input echo)

  -- From the options on: exactly three operands.
  operands : List (List ℕ) → List ℕ → Bool → Step Config → Ending × Bool
  unfolding numbers
  operands given input echo (stops e) = (e, echo)
  operands (host ∷ proxy_port ∷ listen_port ∷ []) input echo (goes c) =
      numbers c host input echo (stoi proxy_port) (stoi listen_port)
  operands _ input echo (goes c) = (exits 1, echo)

  -- `main`, with the standard input and whether the terminal echoes: how it goes on, and whether
  -- the terminal echoes then.
  unfoldable pub main : List (ℕ × List ℕ) → List (List ℕ) → List ℕ → Bool → Ending × Bool
  unfolding operands
  main given others input echo = operands others input echo (options given default_config)
