-- ===== src/Engine/Supervisor/Permitted.antt =====
-- What the default supervisor may do.
use railwarden.Base.{String, true, some, List, [], ◌∷◌, ◌++◌, contains, ◌≡◌, ◌⊎◌}
use railwarden.Config.{ProjectFiles}
use railwarden.Value.{str, Fields, get}
use railwarden.World.{World}
use railwarden.Engine.Outside.{Outside, Sys}

-- The actions that a failure allows, and the question to the user.
abbrev pub Permitted : List String → String → Type 0
Permitted allowed chosen = (contains allowed chosen ≡ true) ⊎ (chosen ≡ "ask_user")

module _ (W : World) (O : Outside) (files : ProjectFiles) where
  -- The last decision of the log is this one, and it names this action.
  pub record Decided (decision : Fields) (chosen : String) (t : Sys W) : Type 0 where
    pub earlier : List Fields
    pub logged : t.rt.decisions ≡ earlier ++ (decision ∷ [])
    pub named : get "chosen_action" decision ≡ some (str chosen)
