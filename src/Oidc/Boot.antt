-- ===== src/Oidc/Boot.antt =====
-- A kit beside its session manager.
use porte.Base.{true, ◌≡◌, refl, string_eq, nat_eq, beq_iff, arith}
use porte.Base.Strings.{GoStrings}
use porte.Session.Http.{Request, Config, resolved_config, idle_timeout, https, is_secure, secure}
use porte.Oidc.Kit.{Settings, resolved, agrees_with}

secure-urls :
    (go : GoStrings) (c c' : Config) (r : Request)
    → c.redirect_url ≡ c'.redirect_url
    → c.success_url ≡ c'.success_url
    → secure go c r ≡ secure go c' r
unfolding secure https is_secure
secure-urls go c c' r redirect success = rw (redirect, success) refl

-- A kit that boots and its manager judge every request alike: whether its cookies are Secure and carry
-- the __Host- prefix, how long a session lives, and how long it may idle.
pub agrees_with-secure :
    (go : GoStrings) (c : Settings) (manager : Config) (r : Request)
    → agrees_with c manager ≡ true
    → (secure go (resolved c).base r ≡ secure go manager r)
      × ((resolved c).base.session_ttl ≡ manager.session_ttl)
      × (idle_timeout (resolved c).base ≡ idle_timeout manager)
unfolding agrees_with resolved
agrees_with-secure go c manager r h =
    let kit = resolved_config c.base in
    (
      secure-urls go kit manager r (ground (arith, beq_iff kit.redirect_url manager.redirect_url))
          (ground (arith, beq_iff kit.success_url manager.success_url)),
      ground (arith, beq_iff kit.session_ttl manager.session_ttl),
      ground (arith, beq_iff (idle_timeout kit) (idle_timeout manager)),
    )
