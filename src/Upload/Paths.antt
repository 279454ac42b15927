-- ===== src/Upload/Paths.antt =====
-- Package path/filepath on Unix, on names as the source uses them.
use mathlib.Core.List.{reverse}
use blueprint_audio_backend.Common.{[], ◌∷◌, ◌==◌, if◌then◌else◌, Text, text, is_empty}

-- the extension of a name read backwards, after `suffix`
abbrev pub ext_from : Text → Text → Text
ext_from [] suffix = []
ext_from (c ∷ s) suffix =
    let rest = ext_from s (c ∷ suffix) in
    if c == b'/' then [] else if c == b'.' then c ∷ suffix else rest

-- filepath.Ext
abbrev pub ext : Text → Text
ext path = ext_from (reverse path) []

abbrev pub drop_slashes : Text → Text
drop_slashes [] = []
drop_slashes (c ∷ s) = let rest = drop_slashes s in if c == b'/' then rest else c ∷ s

abbrev pub until_slash : Text → Text
until_slash [] = []
until_slash (c ∷ s) = let rest = until_slash s in if c == b'/' then [] else c ∷ rest

-- filepath.Base
unfoldable pub base : Text → Text
base path =
    let name = reverse (until_slash (drop_slashes (reverse path))) in
    if is_empty path then text "." else if is_empty name then text "/" else name
