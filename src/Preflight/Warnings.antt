-- ===== src/Preflight/Warnings.antt =====
-- What the warnings of scripts/compose_preflight.py say about the environment file.
use kerislab.Preflight.{Strips, is_skipped, ◌∷◌, name_of}
use kerislab.Prelude.{String, ◌∷◌, ◌==◌, Bool, not, ◌&&◌}
use kerislab.Dict.{Dict}

-- Whether a raw line assigns a value to a name.
abbrev pub assigns : Strips → String → String → Bool
assigns strips name raw_line =
    not (is_skipped strips (strips.blanks raw_line))
    && name_of strips (strips.blanks raw_line) == name
