-- ===== src/Errors.antt =====
-- web/app.js: the errors that `renderErrors` shows, one for each target, operation and message.
pub mod Unique
use copilot_api_dashboard.Base.{Bool, List, [], ◌∷◌, ◌++◌, ◌&&◌, if◌then◌else◌, str_eq}
use copilot_api_dashboard.Model.{SourceError}

-- Equality of the keys: `JSON.stringify` of the three texts.
abbrev pub same_key : SourceError → SourceError → Bool
same_key a b =
    str_eq a.target b.target && (str_eq a.operation b.operation && str_eq a.message b.message)

-- `Map.set`: an entry with the key keeps its place and gets the new value.
unfoldable pub put_error : SourceError → List SourceError → List SourceError
put_error e [] = e ∷ []
put_error e (x ∷ us) = if same_key x e then e ∷ us else x ∷ put_error e us

-- The constructor of `Map`, over the list of entries.
unfoldable pub put_errors : List SourceError → List SourceError → List SourceError
unfolding put_error
put_errors [] us = us
put_errors (e ∷ es) us = put_errors es (put_error e us)

unfoldable pub unique_errors : List SourceError → List SourceError → List SourceError
unfolding put_errors
unique_errors dashboard_errors event_errors = put_errors (dashboard_errors ++ event_errors) []
