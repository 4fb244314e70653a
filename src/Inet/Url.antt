-- ===== src/Inet/Url.antt =====
-- hcore_parse_url, hcore_parse_listen and what they call.
use hcore.Base.{
  ℕ, suc, ◌≤◌, ◌≡◌, ◌≢◌, Bool, true, false, ◌&&◌, not, Option, none, some, List, [], ◌∷◌, ◌++◌, leb,
  ◌==◌, if◌then◌else◌, arith, All, inl, inr, Option-cases, take, drop, length, take-append,
  length-append, drop-suc-append,
}
use hcore.Str.Number.{atoi}
use hcore.Str.Number.Decimal.{Spells}
use hcore.Inet.{strlchr, strlchr-append, inaddr_none}
use hcore.Inet.Addr.{inet_addr}
use hcore.Inet.Port.{check_port, check_port_iff, check_port-atoi, IsPort}
use hcore.Inet.Mask.{bytes_eq}

-- the messages that `url->err` points to
pub data Message : Type 0 where
  invalid_port need_a_host no_port no_host unsupported_star invalid_ip : Message

-- hcore_url_t. The address family and the length of the address are those of AF_INET once the text
-- has bytes, and `addr` and `sin_port` are the fields of `sockaddr`.
pub record Url : Type 0 where
  pub inet : Bool
  pub addr : ℕ
  pub sin_port : ℕ
  pub port : ℕ
  pub port_text : List ℕ
  pub host : List ℕ
  pub url_text : List ℕ
  pub err : Option Message
  pub listen : Bool

-- HCORE_OK or HCORE_ERROR, and what is left in `*url`
abbrev pub Outcome : Type 0
Outcome = Bool × Url

abbrev pub fail : Message → Url → Outcome
fail m url = (false, record url { err = some m })

abbrev pub star : List ℕ
star = b'*' ∷ []

module _ (htonl htons : ℕ → ℕ) where
  -- INADDR_ANY is 0.
  unfoldable pub parse_host : List ℕ → Url → Outcome
  parse_host host url =
      let named = record url { host = host } in
      let addr = inet_addr htonl host in
      let found = record named { addr = addr } in
      if length host == 0
      then fail no_host url
      else if bytes_eq host star
      then (if not url.listen
          then fail unsupported_star named
          else (true, record named { addr = 0 }))
      else if addr == inaddr_none
      then fail invalid_ip found
      else (true, record found { err = none })

  unfoldable pub set_port : ℕ → List ℕ → Url → Url
  set_port n text url = record url { port = n; sin_port = htons n; port_text = text }

  -- A text with no ':' is a port.
  unfoldable pub parse_only_port : List ℕ → Url → Outcome
  parse_only_port text url = if not url.listen then fail need_a_host url else elim (atoi text) [
    | none ↦ fail no_port url
    | some n ↦ elim (check_port (some n)) [
      | none ↦ fail invalid_port url
      | some n ↦ (true, record (set_port n text url) { addr = 0; host = star })
    ]
  ]

  unfoldable pub parse_inet_sock : List ℕ → Url → Outcome
  unfolding set_port
  parse_inet_sock str url =
      let url' = record url { inet = true } in
      if length str == 0 then (false, url) else elim (strlchr str b':') [
        | none ↦ parse_only_port str url'
        | some i ↦
            let port = drop (suc i) str in
            elim (check_port (atoi port)) [
              | none ↦ fail invalid_port url'
              | some n ↦ parse_host (take i str) (set_port n port url')
            ]
      ]

  -- "unix:"
  abbrev pub unix_prefix : List ℕ
  unix_prefix = b'u' ∷ b'n' ∷ b'i' ∷ b'x' ∷ b':' ∷ []

  -- `sizeof("unix:")` counts the terminator. `hcore_parse_unix_sock` is not written yet, and fails.
  unfoldable pub parse_url : List ℕ → Url → Outcome
  parse_url str url =
      let url' = record url { url_text = str } in
      if leb 6 (length str) && bytes_eq (take 5 str) unix_prefix
      then (false, url')
      else parse_inet_sock str url'

  unfoldable pub parse_listen : List ℕ → Url → Outcome
  parse_listen str url = parse_url str (record url { listen = true })

  -- What a call that returned HCORE_OK has left in `*url`.
  pub record IsParsed (r : Url) : Type 0 where
    pub inet_family : r.inet ≡ true
    pub port_in_range : IsPort r.port
    pub network_order : r.sin_port ≡ htons r.port
    pub has_host : r.host ≢ []
    pub has_addr : r.addr ≢ inaddr_none

  parse_host-IsParsed :
      (host : List ℕ) (url r : Url)
      → url.inet ≡ true
      → IsPort url.port
      → url.sin_port ≡ htons url.port
      → parse_host host url ≡ (true, r)
      → IsParsed r
  unfolding parse_host
  parse_host-IsParsed [] url r i p s h = ground arith
  parse_host-IsParsed (c ∷ host) url r i p s h = ground arith

  parse_only_port-IsParsed :
      (text : List ℕ) (url r : Url)
      → url.inet ≡ true
      → parse_only_port text url ≡ (true, r)
      → IsParsed r
  unfolding parse_only_port set_port
  parse_only_port-IsParsed text url r i h = elim (Option-cases (atoi text)) [
    | inl bad ↦ ground (arith, bad)
    | inr (n, good) ↦ elim (Option-cases (check_port (some n))) [
      | inl bad ↦ ground (arith, bad)
      | inr (m, port) ↦ ground (arith, check_port_iff (some n) m port)
    ]
  ]

  parse_inet_sock-IsParsed :
      (str : List ℕ) (url r : Url) → parse_inet_sock str url ≡ (true, r) → IsParsed r
  unfolding parse_inet_sock
  parse_inet_sock-IsParsed str url r h = elim (Option-cases (strlchr str b':')) [
    | inl bad ↦ ground (arith, bad, parse_only_port-IsParsed str (record url { inet = true }) r)
    | inr (i, at) ↦ elim (Option-cases (check_port (atoi (drop (suc i) str)))) [
      | inl bad ↦ ground (arith, at, bad)
      | inr (n, port) ↦ ground (
        arith,
        at,
        port,
        check_port_iff (atoi (drop (suc i) str)) n port,
        parse_host-IsParsed (take i str)
            (set_port n (drop (suc i) str) (record url { inet = true })) r,
      )
    ]
  ]

  -- After every call of `hcore_parse_url` that returns HCORE_OK the port is of 1 to 65535 and stored
  -- in network order too, the host is not empty, and the address is not INADDR_NONE.
  pub parse_url-IsParsed : (str : List ℕ) (url r : Url) → parse_url str url ≡ (true, r) → IsParsed r
  unfolding parse_url
  parse_url-IsParsed str url r h =
      ground (arith, parse_inet_sock-IsParsed str (record url { url_text = str }) r)

  -- The URL that "host:port" stands for.
  abbrev pub parsed : (host port : List ℕ) → ℕ → Url → Url
  parsed host port n url = record url {
    inet = true;
    addr = inet_addr htonl host;
    sin_port = htons n;
    port = n;
    port_text = port;
    host = host;
    url_text = host ++ b':' ∷ port;
    err = none;
  }

  -- For a host that `hcore_inet_addr` reads, without ':', other than "*" and not in front of a unix
  -- path, and the decimal text of a port of 1 to 65535, `hcore_parse_url` accepts "host:port" and
  -- fills in the address, the port and the three texts.
  pub parse_url-host_port :
      (host port : List ℕ) (n : ℕ) (url : Url)
      → All (λ c. c ≢ b':') host
      → 1 ≤ length host
      → bytes_eq host star ≡ false
      → bytes_eq (take 5 (host ++ b':' ∷ port)) unix_prefix ≡ false
      → inet_addr htonl host ≢ inaddr_none
      → Spells 65535 port n
      → 1 ≤ n
      → parse_url (host ++ b':' ∷ port) url ≡ (true, parsed host port n url)
  unfolding parse_url parse_inet_sock parse_host set_port
  parse_url-host_port host port n url no_colon some_host no_star no_unix addr spelt pos = ground (
    arith,
    strlchr-append host port b':' no_colon,
    drop-suc-append host b':' port,
    take-append host (b':' ∷ port),
    check_port-atoi port n spelt pos,
    length-append host (b':' ∷ port),
  )

  -- Without the listen flag neither a port alone nor the host "*" is accepted.
  pub parse_url-not_listening :
      (str : List ℕ) (url r : Url)
      → url.listen ≡ false
      → parse_url str url ≡ (true, r)
      → (strlchr str b':' ≢ none) × (bytes_eq r.host star ≡ false)
  unfolding parse_url parse_inet_sock parse_only_port parse_host set_port
  parse_url-not_listening str url r quiet h = ground arith
