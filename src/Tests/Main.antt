-- ===== src/Tests/Main.antt =====
-- Command lines.
use transproxify.Base.{
  ◌⊎◌, ℕ, ◌≡◌, refl, List, [], ◌∷◌, ◌++◌, map, ltb, codes, true, false, Option, none, some, arith,
}
use transproxify.Base.Int.{pos}
use transproxify.Address.{Hostent, af_inet, zero_address}
use transproxify.Settings.{direct, socks5, tcp, udp, ProxySettings, new_settings}
use transproxify.Main.{
  Ending, stoi, prompt, main, options, udp_server, tcp_server, exits, uncaught, default_config,
}
use transproxify.Main.Prompt.{prompt_lem}
use transproxify.Main.Options.{Does, options-Does}
use transproxify.Main.Started.{Sound, main-Sound}
use transproxify.Socks5.Greeting.{offer, credentials}
use transproxify.Socks5.Tunnel.{tunnel_request}
use transproxify.Socks5.Connect.{authenticated}
use transproxify.Tcp.{Ended, Relay}
use transproxify.Udp.Proxy.{Descriptors}
use transproxify.UdpServer.{Answers, construct}
use transproxify.TcpServer.{ChildAnswers, child}
use transproxify.TcpServer
use transproxify.TcpServer.Tunnel.{Works, Delivered}
use transproxify.Main.Delivery.{Constructs, started-Delivered, started-construct}
use transproxify.Tests.Tcp.{schedule, talking}
use transproxify.Tests.Socks.{target, socket}

-- The host is 10.0.0.9.
abbrev resolver : List ℕ → Option Hostent
resolver name = some (record { h_addrtype = af_inet; h_addr = 10 ∷ 0 ∷ 0 ∷ 9 ∷ [] })

-- transproxify -r udp -t http -u joe -t socks5 -p proxy 1080 10000
abbrev given : List (ℕ × List ℕ)
given =
    (b'r', codes "udp")
    ∷ (b't', codes "http")
    ∷ (b'u', codes "joe")
    ∷ (b't', codes "socks5")
    ∷ (b'p', [])
    ∷ []

abbrev others : List (List ℕ)
others = codes "proxy" ∷ codes "1080" ∷ codes "10000" ∷ []

abbrev input : List ℕ
input = codes "pw" ++ (b'\n' ∷ [])

abbrev port_of : Ending → Option ℕ
port_of (udp_server settings (pos port)) = some port
port_of _ = none

starts : port_of (main resolver given others input true).0 ≡ some 10000
unfolding main options prompt stoi new_settings
starts = refl

two_operands : (main resolver given (codes "proxy" ∷ codes "1080" ∷ []) input true).0 ≡ exits 1
unfolding main options
two_operands = refl

-- The exception for a number that is too large is not caught.
too_large :
    (main resolver given (codes "proxy" ∷ codes "1080" ∷ codes "2147483648" ∷ []) input true).0
    ≡ uncaught "stoi"
unfolding main options stoi
too_large = refl

prompt_lem_example :
    (prompt (codes "pw" ++ (b'\n' ∷ [])) false ≡ (some (codes "pw"), true))
    × (prompt (codes "pw") false ≡ (some (codes "pw"), true))
prompt_lem_example =
    prompt_lem (codes "pw") [] false
      ((λ e. omega arith, λ e. omega arith), ((λ e. omega arith, λ e. omega arith), tt))

options-Does_example : Does given default_config (options given default_config)
options-Does_example = options-Does given default_config

main-Sound_example :
    Sound resolver given others input (main resolver given others input true).0
    × ((main resolver given others input true).1 ≡ true)
main-Sound_example = main-Sound resolver given others input true

-- transproxify -t socks5 -u joe -P pw proxy 1080 10000
abbrev tcp_given : List (ℕ × List ℕ)
tcp_given = (b't', codes "socks5") ∷ (b'u', codes "joe") ∷ (b'P', codes "pw") ∷ []

abbrev tcp_settings : ProxySettings
tcp_settings = record {
  proxy_protocol = socks5;
  proxied_protocol = tcp;
  username = codes "joe";
  password = codes "pw";
  proxy_address = record { sin_family = 2; sin_port = 14340; s_addr = 150994954; sin_zero = 0 };
}

started : (main resolver tcp_given others [] true).0 ≡ tcp_server tcp_settings (pos 10000)
unfolding main options stoi new_settings transproxify.Address.htons transproxify.Base.Int.to_uint16
started = refl

abbrev answers : ChildAnswers
answers = record {
  tied = true;
  parent_lives = true;
  original_target = some target;
  own_address = none;
  peer = some zero_address;
  upstream_fd = some 3;
  connected = true;
  polls = map some schedule;
  client = talking;
  upstream = socket;
}

works : Works answers schedule 3
works = record {
  tied = refl;
  parent_lives = refl;
  has_socket = refl;
  connected = refl;
  polled = refl;
  client_good = (refl, tt);
  upstream_good = (refl, tt);
}

abbrev no_text : ℕ → List ℕ
no_text address = []

abbrev standard : Descriptors
standard f = ltb f 3

started-Delivered_example :
    let w = child resolver no_text false tcp_settings 3 4 answers standard in
    (w.fate ≡ TcpServer.exited 0)
    × ((t : Ended × Relay) × (w.tunnel ≡ some t)
        × Delivered talking socket
            ((offer tcp_settings ++ credentials tcp_settings) ++ tunnel_request target 1)
            (72 ∷ [])
            t)
started-Delivered_example =
    started-Delivered resolver no_text tcp_given others [] true tcp_settings (pos 10000) answers
      schedule 3 false 3 4 standard zero_address target (5 ∷ 2 ∷ 1 ∷ 0 ∷ [])
      (offer tcp_settings ++ credentials tcp_settings) (72 ∷ []) 0 10 0 0 9 1 187 started refl works
      refl refl (authenticated (λ e. cc)) refl (omega arith) (omega arith)

-- transproxify -r udp -t direct proxy 1080 10000
abbrev udp_given : List (ℕ × List ℕ)
udp_given = (b'r', codes "udp") ∷ (b't', codes "direct") ∷ []

abbrev udp_settings : ProxySettings
udp_settings = record {
  proxy_protocol = direct;
  proxied_protocol = udp;
  username = [];
  password = [];
  proxy_address = tcp_settings.proxy_address;
}

started_udp : (main resolver udp_given others [] true).0 ≡ udp_server udp_settings (pos 10000)
unfolding main options stoi new_settings transproxify.Address.htons transproxify.Base.Int.to_uint16
started_udp = refl

abbrev udp_answers : Answers
udp_answers = record {
  for_direct = record { target_socket_fd = some 4; bound = true; connected = true };
  for_socks5 = record {
    proxy_socket_fd = none;
    connected = false;
    stream = socket;
    relay_socket_fd = none;
    relay_connected = false;
  };
}

started-construct_example :
    Constructs resolver udp_given udp_settings udp_answers 7 zero_address target standard
      (construct resolver direct udp_settings udp_answers 7 zero_address target standard)
started-construct_example =
    started-construct resolver udp_given others [] true udp_settings (pos 10000) udp_answers 7
      zero_address target standard started_udp
