-- ===== src/Uri/Methods.antt =====
-- The class `Uri` of gearbox/core/Uri.cc.
use gearbox.Base.{
  String, ℕ, ℤ, pos, negsuc, is_zero, Bool, false, ◌||◌, ◌&&◌, [], ◌++◌, map, Bytes, codes,
  bytes_eq, is_empty, starts_with, to_lower, none, some, ◌==◌, if◌then◌else◌,
}
use gearbox.Errors.{Outcome, ok, throw, make_uri_error, ◌>>=◌, ◌>>◌}
use gearbox.Uri.Text.{cut_at, cut, cut_last, cut_scheme, atoi, show_int}
use gearbox.Uri.Path.{canonicalize_path}

pub record Uri : Type 0 where
  pub uristr : Bytes
  pub scheme : Bytes
  pub username : Bytes
  pub password : Bytes
  pub hostname : Bytes
  pub path : Bytes
  pub query : Bytes
  pub fragment : Bytes
  pub port : ℤ

abbrev pub blank : Uri
blank = record {
  uristr = [];
  scheme = [];
  username = [];
  password = [];
  hostname = [];
  path = [];
  query = [];
  fragment = [];
  port = pos 0;
}

-- a method: it may write the fields, and it returns or throws
abbrev pub Method : Type 0 → Type 0
Method A = Uri → Outcome Uri A

abbrev pub skip : Method (Unit {0})
skip u = ok tt u

abbrev pub has_scheme : String → Uri → Bool
has_scheme s u = bytes_eq u.scheme (codes s)

unfoldable pub is_httpx : Uri → Bool
unfolding bytes_eq
is_httpx u = has_scheme "http" u || has_scheme "https" u

-- the macro REQUIRE_HTTPX
unfoldable pub require_httpx : String → Method (Unit {0})
unfolding is_httpx
require_httpx name u =
    if is_httpx u
    then ok tt u
    else throw
        (make_uri_error (
          codes "attribute '"
          ++ (codes name ++ (codes "' unsupported by '" ++ (u.scheme ++ codes "' URIs")))))
        u

-- `scheme(s)`: the field is written before the test
unfoldable pub set_scheme : Bytes → Method (Unit {0})
unfolding bytes_eq to_lower
set_scheme scheme u =
    let u' : Uri = record u { scheme = map to_lower scheme } in
    if has_scheme "file" u' || (has_scheme "http" u' || has_scheme "https" u')
    then ok tt u'
    else throw (make_uri_error (codes "Unsupported uri scheme '" ++ (u'.scheme ++ codes "'."))) u'

abbrev write : (Uri → Uri) → Method (Unit {0})
write f u = ok tt (f u)

unfoldable pub set_username : Bytes → Method (Unit {0})
unfolding require_httpx
set_username s = require_httpx "username" >> write (λ u. record u { username = s })

unfoldable pub set_password : Bytes → Method (Unit {0})
unfolding require_httpx
set_password s = require_httpx "password" >> write (λ u. record u { password = s })

unfoldable pub set_hostname : Bytes → Method (Unit {0})
unfolding require_httpx to_lower
set_hostname s = require_httpx "hostname" >> write (λ u. record u { hostname = map to_lower s })

unfoldable pub set_port : ℤ → Method (Unit {0})
unfolding require_httpx
set_port p = require_httpx "port" >> write (λ u. record u { port = p })

unfoldable pub set_query : Bytes → Method (Unit {0})
unfolding require_httpx
set_query s = require_httpx "query" >> write (λ u. record u { query = s })

unfoldable pub set_fragment : Bytes → Method (Unit {0})
unfolding require_httpx
set_fragment s = require_httpx "fragment" >> write (λ u. record u { fragment = s })

unfoldable pub set_path : Bytes → Uri → Uri
set_path s u = record u { path = s }

unfoldable pub path_push : Bytes → Uri → Uri
unfolding set_path
path_push part u =
    if is_empty u.path then set_path part u else set_path (u.path ++ (codes "/" ++ part)) u

-- with no slash in the path nothing is removed
unfoldable pub path_pop : Uri → Uri
unfolding set_path cut_last
path_pop u =
    if is_empty u.path
    then u
    else elim (cut_last b'/' u.path) [ none ↦ u | some (before, after) ↦ set_path before u ]

unfoldable pub leaf : Uri → Bytes
unfolding cut_last
leaf u = elim (cut_last b'/' u.path) [ none ↦ u.path | some (before, after) ↦ after ]

unfoldable pub query_push : Bytes → Method (Unit {0})
unfolding set_query
query_push part = require_httpx "query" >> λ u.
    if is_empty u.query then set_query part u else set_query (u.query ++ (codes "&" ++ part)) u

-- the getters that require an http scheme
unfoldable pub get_hostname : Method Bytes
unfolding require_httpx
get_hostname = require_httpx "hostname" >> λ u. ok u.hostname u

unfoldable pub get_port : Method ℤ
unfolding require_httpx
get_port = require_httpx "port" >> λ u. ok u.port u

abbrev port_is : ℕ → ℤ → Bool
port_is n (pos p) = p == n
port_is n (negsuc p) = false

unfoldable pub hostport : Method Bytes
unfolding get_hostname get_port show_int bytes_eq
hostport u =
    if has_scheme "file" u
    then ok [] u
    else if has_scheme "http" u && port_is 80 u.port
    then get_hostname u
    else if has_scheme "https" u && port_is 443 u.port
    then get_hostname u
    else (get_hostname >>= λ h. get_port >>= λ p. λ v. ok (h ++ (codes ":" ++ show_int p)) v) u

unfoldable pub authority : Method Bytes
unfolding hostport
authority u =
    if has_scheme "file" u
    then ok [] u
    else (hostport >>= λ host. λ v.
          ok
            ((if is_empty u.username
                then []
                else u.username
                  ++ ((if is_empty u.password then [] else codes ":" ++ u.password) ++ codes "@"))
              ++ host)
            v)
        u

-- what `str` and `canonical` write behind the path
unfoldable pub suffix : Uri → Bytes
suffix u =
    (if is_empty u.query then [] else codes "?" ++ u.query)
    ++ (if is_empty u.fragment then [] else codes "#" ++ u.fragment)

unfoldable pub str : Method Bytes
unfolding authority suffix starts_with
str = authority >>= λ a. λ u.
    ok
      (u.scheme
        ++ (codes "://"
            ++ (a
                ++ ((if starts_with (codes "/") u.path then [] else codes "/")
                    ++ (u.path ++ suffix u)))))
      u

unfoldable pub canonical : Method Bytes
unfolding authority suffix canonicalize_path
canonical = authority >>= λ a.
    λ u. ok (u.scheme ++ (codes "://" ++ (a ++ (canonicalize_path u.path ++ suffix u)))) u

-- `operator ==`: the canonical texts agree; a text that cannot be printed throws
unfoldable pub uri_eq : Uri → Uri → Outcome Uri Bool
unfolding canonical bytes_eq
uri_eq l r = elim (canonical l) [
  | throw e u ↦ throw e u
  | ok a _ ↦ elim (canonical r) [ throw e u ↦ throw e u | ok b u ↦ ok (bytes_eq a b) u ]
]

-- the part of `parse_authority` for what stands before "@"
set_userinfo : Bytes → Method (Unit {0})
unfolding set_username set_password cut_at
set_userinfo info = set_username info >> λ u. elim (cut b':' u.username) [
  | none ↦ ok tt u
  | some (name, pass) ↦ (set_password pass >> set_username name) u
]

-- the part of `parse_authority` for the host and the port
set_hostinfo : Bytes → Method (Unit {0})
unfolding set_hostname set_port cut_at atoi
set_hostinfo nl = elim (cut b':' nl) [
  | none ↦ set_hostname nl
  | some (host, port) ↦ set_hostname host >> set_port (atoi port)
]

unfoldable pub parse_authority : Bytes → Method (Unit {0})
unfolding set_userinfo set_hostinfo cut_at
parse_authority authority u =
    if is_empty authority
    then throw
        (make_uri_error (codes "Authority must be present for '" ++ (u.scheme ++ codes "' uris.")))
        u
    else elim (cut b'@' authority) [
      | none ↦ set_hostinfo authority u
      | some (info, nl) ↦ (set_userinfo info >> set_hostinfo nl) u
    ]

-- the separator itself is dropped, whichever it is
split_authority : Bytes → Bytes × Bytes
unfolding cut_at
split_authority uri = elim (cut_at (λ c. c == b'/' || (c == b'?' || c == b'#')) uri) [
  | some (authority, rest) ↦ (authority, rest)
  | none ↦ (uri, [])
]

-- one of the parts behind a mark: what stands before the mark stays
take_part : ℕ → (Bytes → Method (Unit {0})) → Bytes → Method Bytes
unfolding cut_at
take_part mark set uri = elim (cut mark uri) [
  | none ↦ λ u. ok uri u
  | some (before, after) ↦ set after >> λ u. ok before u
]

default_port : Method (Unit {0})
unfolding set_port bytes_eq
default_port u =
    if is_zero u.port
    then (if has_scheme "http" u
        then set_port (pos 80) u
        else (if has_scheme "https" u then set_port (pos 443) u else ok tt u))
    else ok tt u

parse_httpx : Bytes → Method Bytes
unfolding parse_authority split_authority take_part set_fragment set_query default_port
parse_httpx uri =
    let (authority, rest) = split_authority uri in
    parse_authority authority
    >> (take_part b'#' set_fragment rest >>= λ rest'.
        (take_part b'?' set_query rest' >>= λ rest''. default_port >> λ u. ok rest'' u))

unfoldable pub parse_uristr : Bytes → Method (Unit {0})
unfolding set_scheme parse_httpx cut_scheme bytes_eq set_path
parse_uristr uristr u =
    let u0 : Uri = record u { port = pos 0 } in
    elim (cut_scheme uristr) [
      | none ↦
          throw
            (make_uri_error
              (codes "The string '" ++ (uristr ++ codes "' is not parseable as a uri.")))
            u0
      | some (scheme, uri) ↦
          (set_scheme scheme
              >> ((λ v. if has_scheme "file" v then ok uri v else parse_httpx uri v) >>= λ path.
                  λ v. ok tt (set_path path v)))
            u0
    ]

-- the constructor from a text: the object is there only if parsing returns
unfoldable pub new_uri : Bytes → Outcome Uri (Unit {0})
unfolding parse_uristr
new_uri uristr = parse_uristr uristr (record blank { uristr = uristr })
