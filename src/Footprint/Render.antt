-- ===== src/Footprint/Render.antt =====
-- How Nomad renders the templates of a task, which is not code of this repository.
use cluster_api_provider_nom.Base.{
  String, false, Option, none, some, List, [], ◌∷◌, ◌≡◌, if◌then◌else◌,
}
use cluster_api_provider_nom.Base.Text.{◌==◌}
use cluster_api_provider_nom.Base.Search.{occurs}
use cluster_api_provider_nom.World.Wire.{Template}

-- The text that is made of a template's text with the given left and right delimiters. Only what
-- stands behind a left delimiter is executed, so a text without one comes out as it is.
pub record Renderer : Type 0 where
  pub render : String → String → String → String
  pub plain : (left right text : String) → occurs left text ≡ false → render left right text ≡ text

-- A delimiter that a template sets, or the default.
abbrev pub delimiter : Option String → String → String
delimiter none default = default
delimiter (some d) default = d

abbrev pub rendered : Renderer → Template → String
rendered R t = R.render (delimiter t.left_delim "{{") (delimiter t.right_delim "}}") t.embedded_tmpl

-- The first template for the path of the user data.
abbrev pub first_boot_template : List Template → Option Template
first_boot_template [] = none
first_boot_template (t ∷ ts) =
    let rest = first_boot_template ts in
    if t.dest_path == "local/boot/user-data" then some t else rest

-- The text that a task finds as its user data.
abbrev pub user_data_of : Renderer → List Template → Option String
user_data_of R ts = elim (first_boot_template ts) [ none ↦ none | some t ↦ some (rendered R t) ]
