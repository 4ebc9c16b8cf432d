-- ===== src/Lib.antt =====
-- porte: the authentication kit of the Facile suite, modelled and verified.
--
-- Conventions. A struct is a record, an enum or a set of sentinel errors a data type, a method that
-- mutates its receiver a function that returns the new state. Identifiers, tokens and roles are
-- texts. A number that the program only counts up or compares (row ids, times, durations) is a
-- natural number; a time counts nanoseconds from Go's zero time, so that 0 is the zero time
-- (in Oidc/Jwt, from the Unix epoch).
--
-- The functions of Go's strings package that rest on Unicode tables are a parameter (GoStrings), as are
-- SHA-256, the JWT verifier and the claims source; a clock reading and a fresh random token are
-- arguments of the operation that takes them. Every loop of the parts below runs over a list and is
-- structural recursion on it, but for three: the fuel of a device login's poll bounds its
-- rounds, and the code's lifetime over the interval, and one more, are enough (Devicelogin/Ending); the
-- fuel of a deletion poll bounds its pages (Directory/Paging), that of a reseal its batches, of which
-- one more than there are identities are enough (Pg/Resealing/Paging).
--
-- Parts:
--  - Base: the shared names, Boolean tests, lists, maps, 64-bit integers, and locale.go.
--  - Pg (pg/): the identity tables. Pg/Tables holds the rows and the refusals, Pg/Linking is
--    linking.go and takeover.go, Pg/Sessions the session store with bound.go, Pg/Erase erase.go,
--    Pg/Links magiclink.go, Pg/Codes the login codes and Pg/Identities the identity rows. A
--    transaction is a function from the tables to the tables or a refusal, so an interleaving is a
--    sequence of them, which is what the advisory locks and the single statements make of it. Not
--    modelled: a database that fails, foreign keys, and the reads that list rows.
--    Pg/Sealing is sealer.go, Pg/Resealing reseal.go over the identity rows; the ciphers, the codecs and
--    the order of the database's texts are parameters, and the other stores see the tokens unsealed.
--  - Session (session/): Session/Http is cookie.go with the settings it reads, Session/Manager
--    session.go and bind.go, over the store of Pg/Sessions. Not modelled: the routing of Mount and of
--    the middlewares, and the logger.
--  - MagicLink (magiclink/): MagicLink/Kit is magiclink.go, request.go, consume.go and the check of
--    routes.go, over Pg/Links and Session/Manager. A mail is part of what Request returns. The app's
--    callbacks and the address parser are parameters. Request's two counts and its insert are three
--    transactions; MagicLink/Overlap has the steps of requests that overlap, and MagicLink/Limits what
--    the limits are worth over them. Not modelled: the delivery of the mail.
--  - MagicLink/Memory (magiclink/magiclinktest/memory.go): the reference store of the links, beside the
--    store of Pg/Links.
--  - Local (local/): Local/Password is password.go, Local/Kit local.go, over Pg/Identities and
--    Session/Manager. Argon2, base64 and fmt's scanner are parameters. Not modelled: the routes and
--    EqualizeTiming.
--  - Oidc (oidc/): the sign-in through the provider. Oidc/Flow is cookie.go and the checks of what a
--    caller sends, Oidc/Claims what a verified token says, Oidc/Kit the boot, Oidc/Callback handleLogin
--    and handleCallback, Oidc/Exchange the code and the device exchange with bearer.go, Oidc/Logout the
--    back-channel logout, Oidc/Roles middleware.go and the profile sync; over Pg/Linking, Pg/Identities, Pg/Codes and Session/Manager. go-oidc, oauth2,
--    JSON and base64 are parameters. Not modelled: FetchAvatar, the config route.
--  - Devicelogin (devicelogin/): a command line's sign-in. Devicelogin/Transport reads an answer,
--    Devicelogin/Discover is discover.go and authorize.go, Devicelogin/Poll poll.go and Devicelogin/Login
--    exchange.go with devicelogin.go. The network and the clock are parameters. Not modelled: how URLs
--    are joined, and what is printed.
--  - Oidc/Jwt (oidc/jwt/): the verifier of access tokens and its key cache. Base64, JSON and RSA are
--    parameters. Not modelled: the discovery of the key set's address.
--  - Directory (directory/): the erasures that an app polls for. Directory/Deletions is deletions_poll.go,
--    deletions_state.go and the handling of deletions.go. Registre's lists, the callbacks, the saves and
--    the clock are parameters. Not modelled: the push, the sync of spaces, Run's ticker.
--  - Forfait (forfait/): the entitlements of a plan. Forfait/Store is store.go, decode.go and Reset,
--    Forfait/Persist persist.go; JSON and decimals are parameters. Not modelled: the warnings.
--  - Keys (keys/, pg/keys.go): the API keys. Keys/Store holds the two tables and their statements,
--    Keys/Manager the tokens, the handlers and Authenticate, whose lookup, check and count each read
--    tables of their own; Keys/Quota has the steps of requests that overlap. SHA-256, the random bytes and url.Parse are
--    parameters. Not modelled: the routing of Mount, the context key.
--  - Spaces (spaces/, spaces/spacestest/memory.go): who may act in a space, and at which rank.
--    Spaces/Ladder is ladder.go, Spaces/Guard is guard.go and assign.go, Spaces/Memory the reference
--    store. A store's own errors are the refusal `failed`.
--
-- Not modelled, besides what the parts name: loopback/, avatarfs/ and internal/handoff/, which
-- talk to a browser or a disk around the parts above.
pub mod Base
pub mod Devicelogin
pub mod Directory
pub mod Forfait
pub mod Keys
pub mod Local
pub mod MagicLink
pub mod Oidc
pub mod Pg
pub mod Session
pub mod Spaces
