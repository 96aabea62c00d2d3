-- ===== src/Tests/Replacements.antt =====
-- Replace directives of module files, some of which the reader does not take for directives.
use symaira_corekit.Base.{◌≡◌, refl, [], ◌∷◌, ◌++◌, str, list_beq}
use symaira_corekit.Base.Strings.{occurs, strip, words}
use symaira_corekit.Consumer.GoMod.{
  corekit_module, go_corekit_replacements, head_of, is_corekit, is_side, mention, split_arrow,
}

reader : Unit {0}
unfolding go_corekit_replacements list_beq is_corekit is_side head_of split_arrow mention occurs
    words strip str
reader = tt

single_directive :
    go_corekit_replacements (str "replace github.com/danieljustus/symaira-corekit/x => ../x")
    ≡ str "github.com/danieljustus/symaira-corekit/x" ∷ []
unfolding reader
single_directive = refl

open_block :
    go_corekit_replacements
      (str "replace (" ++ 10 ∷ str "github.com/danieljustus/symaira-corekit => ../core // here")
    ≡ corekit_module ∷ corekit_module ∷ []
unfolding reader corekit_module
open_block = refl

-- A tab behind the word.
tab_directive :
    go_corekit_replacements
      (str "replace" ++ 9 ∷ str "github.com/danieljustus/symaira-corekit => ../core")
    ≡ []
unfolding reader
tab_directive = refl

-- No space before the parenthesis.
tight_block :
    go_corekit_replacements (
      str "replace("
      ++ 10 ∷ (str "github.com/danieljustus/symaira-corekit => ../core" ++ 10 ∷ str ")"))
    ≡ []
unfolding reader
tight_block = refl
