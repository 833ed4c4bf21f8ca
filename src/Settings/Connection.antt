-- ===== src/Settings/Connection.antt =====
-- services/rabbitmq.py: the URL of `get_rabbitmq` read as RFC 3986 divides it.
use Prim.Native.Char.{Char}
use smart_http_requester.Common.{none, ℕ, ◌≡◌, refl, ap, ◌∙◌, sym, String, true, some, arith}
use smart_http_requester.Common.Int.{pos}
use smart_http_requester.Common.Text.{onto}
use smart_http_requester.Settings.{Settings, str_int, rabbitmq_url}
use smart_http_requester.Settings.Url.{
  free, split, read_amqp, read_authority, divide, read_address, read_port, ◌>>=◌, number_from,
  before-onto, from-onto, before-free, split-onto, split-free, in_set, free-onto, free_fewer,
}
use smart_http_requester.Settings.Numeral.{free-str_int, number_from-str_int}

-- The part of the URL between the user and the path.
abbrev authority : String → String → String → String → String
authority user password host port =
    onto user (onto ":" (onto password (onto "@" (onto host (onto ":" port)))))

onto_assoc : (a b c : String) → onto (onto a b) c ≡ onto a (onto b c)
onto_assoc String.[] b c = refl
onto_assoc (String.◌∷◌ d a) b c = ap (String.◌∷◌ d) (onto_assoc a b c)

authority-onto :
    (user password host port path : String)
    → onto user (onto ":" (onto password (onto "@" (onto host (onto ":" (onto port path))))))
      ≡ onto (authority user password host port) path
authority-onto user password host port path = sym (
    onto_assoc user (onto ":" (onto password (onto "@" (onto host (onto ":" port))))) path
    ∙ ap (λ t. onto user (onto ":" t))
        (onto_assoc password (onto "@" (onto host (onto ":" port))) path
          ∙ ap (λ t. onto password (onto "@" t)) (onto_assoc host (onto ":" port) path)))

-- No part of the URL has a mark that would divide it.
abbrev pub IsPlain : Settings → Type 0
IsPlain s =
    (free "/?#@:" s.rabbitmq_user ≡ true)
    × (free "/?#@" s.rabbitmq_password ≡ true)
    × (free "/?#@:" s.rabbitmq_host ≡ true)
    × (free "?#" s.rabbitmq_vhost ≡ true)

no_end_in : (s : String) → free "/?#@" s ≡ true → free "/?#" s ≡ true
no_end_in = free_fewer "/?#@" "/?#" λ c e. ground (arith, e)

no_at_in : (s : String) → free "/?#@" s ≡ true → free "@" s ≡ true
no_at_in = free_fewer "/?#@" "@" λ c e. ground (arith, e)

no_colon_in : (s : String) → free "/?#@:" s ≡ true → free ":" s ≡ true
no_colon_in = free_fewer "/?#@:" ":" λ c e. ground (arith, e)

no_bracket_in : (s : String) → free "/?#@:[" s ≡ true → free "/?#@:" s ≡ true
no_bracket_in = free_fewer "/?#@:[" "/?#@:" λ c e. ground (arith, e)

but_colon : (s : String) → free "/?#@:" s ≡ true → free "/?#@" s ≡ true
but_colon = free_fewer "/?#@:" "/?#@" λ c e. ground (arith, e)

module _ (user password host port : String) (u : free "/?#@:" user ≡ true)
    (w : free "/?#@" password ≡ true) (h : free "/?#@:" host ≡ true)
    (p : free "/?#@" port ≡ true) where
  free-authority : free "/?#" (authority user password host port) ≡ true
  free-authority = free-onto "/?#" user _ (no_end_in user (but_colon user u)) (
      free-onto "/?#" password _ (no_end_in password w)
        (free-onto "/?#" host _ (no_end_in host (but_colon host h)) (no_end_in port p)))

  split-authority :
      split "@" (authority user password host port)
      ≡ some (onto user (onto ":" password), onto host (onto ":" port))
  split-authority =
      ap (split "@")
        (sym (onto_assoc user (onto ":" password) (onto "@" (onto host (onto ":" port)))))
      ∙ split-onto "@" (onto user (onto ":" password)) (onto host (onto ":" port)) "@"
          (free-onto "@" user _ (no_at_in user (but_colon user u)) (no_at_in password w)) refl

module _ (s : Settings) (n : ℕ) (plain : IsPlain s) (numbered : s.rabbitmq_port ≡ pos n) where
  abbrev parts : String
  parts = authority s.rabbitmq_user s.rabbitmq_password s.rabbitmq_host (str_int s.rabbitmq_port)

  url-parts : rabbitmq_url s ≡ onto "amqp://" (onto parts (onto "/" s.rabbitmq_vhost))
  unfolding rabbitmq_url
  url-parts = ap (onto "amqp://") (
      authority-onto s.rabbitmq_user s.rabbitmq_password s.rabbitmq_host (str_int s.rabbitmq_port)
        (onto "/" s.rabbitmq_vhost))

  -- Where the user and the host have none of the marks / ? # @ and :, the password has none of
  -- / ? # and @, the virtual host has neither ? nor #, and the port is not negative, the URL that
  -- `get_rabbitmq` opens is read back, as RFC 3986 divides a URL, as just these five settings.
  pub read_amqp-rabbitmq_url :
      read_amqp (rabbitmq_url s)
      ≡ some (record {
        user = s.rabbitmq_user;
        password = s.rabbitmq_password;
        host = s.rabbitmq_host;
        port = n;
        vhost = s.rabbitmq_vhost;
      })
  read_amqp-rabbitmq_url =
      let (u, w, h, v) = plain in
      let digits : free "/?#@" (str_int s.rabbitmq_port) ≡ true =
        ap (λ k. free "/?#@" (str_int k)) numbered ∙ free-str_int n in
      let clear =
        free-authority s.rabbitmq_user s.rabbitmq_password s.rabbitmq_host (str_int s.rabbitmq_port)
          u w h digits in
      rw url-parts (
        rw (before-onto "/?#" parts s.rabbitmq_vhost "/" clear refl) (
          rw
            (split-authority s.rabbitmq_user s.rabbitmq_password s.rabbitmq_host
              (str_int s.rabbitmq_port) u w h digits)
            (rw
              (split-onto ":" s.rabbitmq_user s.rabbitmq_password ":"
                (no_colon_in s.rabbitmq_user u) refl)
              (rw
                (split-onto ":" s.rabbitmq_host (str_int s.rabbitmq_port) ":"
                  (no_colon_in s.rabbitmq_host h) refl)
                (rw (ap (λ k. number_from (str_int k) 0) numbered ∙ number_from-str_int n) (
                  rw (from-onto "/?#" parts (onto "/" s.rabbitmq_vhost) clear)
                    (rw (before-free "?#" s.rabbitmq_vhost v) refl)))))))

-- The user is taken for the host where nothing else divides the authority.
read_address-onto :
    (user a : String)
    → free ":" user ≡ true
    → read_address none (onto user (onto ":" a))
      ≡ (read_port a >>= λ n. some (record { userinfo = none; host = user; port = n }))
read_address-onto user a h = rw (split-onto ":" user a ":" h refl, read_address) refl

-- Where the password has one of the marks / ? and #, with no such mark and no @ before it, and the
-- user has none of the marks / ? # @ : and [, the URL that `get_rabbitmq` opens does not name the
-- settings: as RFC 3986 divides it, it has no user and no password, its host is the user's name,
-- and its port is the part of the password before the mark, if that is a number or empty; else it
-- is no URL. Nothing is quoted.
pub read_authority-unquoted :
    (s : Settings) (a b : String) (c : Char)
    → s.rabbitmq_password ≡ onto a (String.◌∷◌ c b)
    → free "/?#@:[" s.rabbitmq_user ≡ true
    → free "/?#@" a ≡ true
    → in_set "/?#" c ≡ true
    → read_authority (rabbitmq_url s)
      ≡ (read_port a >>= λ n. some (record { userinfo = none; host = s.rabbitmq_user; port = n }))
unfolding rabbitmq_url
read_authority-unquoted s a b c e open_user w k =
    let user = s.rabbitmq_user in
    let u = no_bracket_in user open_user in
    let rest = onto "@" (
      onto s.rabbitmq_host
        (onto ":" (onto (str_int s.rabbitmq_port) (onto "/" s.rabbitmq_vhost)))) in
    let divided =
      ap (λ t. onto user (onto ":" (onto t rest))) e
      ∙ ap (λ t. onto user (onto ":" t)) (onto_assoc a (String.◌∷◌ c b) rest)
      ∙ sym (onto_assoc user (onto ":" a) (String.◌∷◌ c (onto b rest))) in
    let clear =
      free-onto "/?#" user (onto ":" a) (no_end_in user (but_colon user u)) (no_end_in a w) in
    let no_at = free-onto "@" user (onto ":" a) (no_at_in user (but_colon user u)) (no_at_in a w) in
    ap (λ t. read_authority (onto "amqp://" t)) divided
    ∙ ap divide (before-onto "/?#" (onto user (onto ":" a)) (onto b rest) c clear k)
    ∙ rw (split-free "@" (onto user (onto ":" a)) no_at, divide)
        (read_address-onto user a (no_colon_in user u))
