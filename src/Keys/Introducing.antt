-- ===== src/Keys/Introducing.antt =====
-- The first use of a key that was just created.
use porte.Base.{String, [], ◌∷◌, Bool, true, false, string_eq, nat_eq}
use porte.Keys.Manager.{Manager}

has_text : String → Bool
has_text String.[] = false
has_text (String.◌∷◌ x s) = true
