-- ===== src/Qt/Widgets.antt =====
-- Trees of Qt's widgets, as the constructors of src/client/ui put them together. Painting and the
-- computation of a layout are Qt's; a tree keeps what the source sets.
use nullchat.Base.{ℕ, String, Str, Bool, true, false, Option, none, some, [], if◌then◌else◌}
use text.Mathlib.Text.{◌==◌ as same_key}

pub data Class : Type 0 where
  widget_class label push_button line_edit text_edit text_browser list_widget progress_bar : Class

pub data EchoMode : Type 0 where
  normal_echo password_echo : EchoMode

pub data Alignment : Type 0 where
  any_alignment align_center align_top : Alignment

pub data Direction : Type 0 where
  horizontal vertical : Direction

-- What the source has set of a widget. `pointer` is the member of the class, or the variable, that keeps the widget. A size that is none is
-- left to Qt, and a progress bar has no value before one is set.
pub record Attributes : Type 0 where
  pub pointer : String
  pub class : Class
  pub label_text : Str
  pub style_sheet : Str
  pub font : Option (Str × ℕ)
  pub alignment : Alignment
  pub placeholder : Str
  pub echo_mode : EchoMode
  pub enabled : Bool
  pub visible : Bool
  pub read_only : Bool
  pub opens_links : Bool
  pub text_visible : Bool
  pub custom_menu : Bool
  pub rich_text : Bool
  pub value : Option ℕ
  pub size : Option (ℕ × ℕ)
  pub fixed_width : Option ℕ
  pub fixed_height : Option ℕ
  pub min_width : Option ℕ
  pub max_width : Option ℕ
  pub min_height : Option ℕ
  pub max_height : Option ℕ

-- `new` of a class of Qt: an enabled and visible widget of which nothing has been set.
abbrev pub fresh : Class → String → Attributes
fresh class pointer = record {
  pointer = pointer;
  class = class;
  label_text = [];
  style_sheet = [];
  font = none;
  alignment = any_alignment;
  placeholder = [];
  echo_mode = normal_echo;
  enabled = true;
  visible = true;
  read_only = false;
  opens_links = false;
  text_visible = true;
  custom_menu = false;
  rich_text = false;
  value = none;
  size = none;
  fixed_width = none;
  fixed_height = none;
  min_width = none;
  max_width = none;
  min_height = none;
  max_height = none;
}

-- `setFixedWidth`, `setFixedHeight` and `setFixedSize`
abbrev pub set_fixed_width : ℕ → Attributes → Attributes
set_fixed_width n a = record a { fixed_width = some n }

abbrev pub set_fixed_height : ℕ → Attributes → Attributes
set_fixed_height n a = record a { fixed_height = some n }

abbrev pub set_fixed_size : ℕ → ℕ → Attributes → Attributes
set_fixed_size width height a = set_fixed_height height (set_fixed_width width a)

-- `margins` are those to the left, at the top, to the right and at the bottom.
pub record Layout : Type 0 where
  pub direction : Direction
  pub alignment : Alignment
  pub margins : Option (ℕ × ℕ × ℕ × ℕ)
  pub spacing : Option ℕ

abbrev pub box : Direction → Layout
box direction = record {
  direction = direction;
  alignment = any_alignment;
  margins = none;
  spacing = none;
}

abbrev pub tight : Direction → Layout
tight direction = record (box direction) { margins = some (0, 0, 0, 0) }

-- `addWidget` with its stretch and its alignment, `addSpacing` and `addStretch`.
mutual
  pub data Widget : Type 0 where
    leaf : Attributes → Widget
    widget : Attributes → Layout → Items → Widget

  pub data Items : Type 0 where
    end : Items
    add_widget : Widget → ℕ → Alignment → Items → Items
    add_spacing : ℕ → Items → Items
    add_stretch : Items → Items

-- What a call does through the pointer `p`.
abbrev pub touch : String → (Attributes → Attributes) → Attributes → Attributes
touch p f a = if same_key a.pointer p then f a else a

unfoldable mutual
  pub through : String → (Attributes → Attributes) → Widget → Widget
  through p f (leaf a) = leaf (touch p f a)
  through p f (widget a l items) = widget (touch p f a) l (through_items p f items)

  pub through_items : String → (Attributes → Attributes) → Items → Items
  through_items p f end = end
  through_items p f (add_widget w stretch alignment items) =
      add_widget (through p f w) stretch alignment (through_items p f items)
  through_items p f (add_spacing n items) = add_spacing n (through_items p f items)
  through_items p f (add_stretch items) = add_stretch (through_items p f items)

-- `setStyleSheet`, `setText`, `setPlaceholderText` and `setEnabled` through a pointer.
abbrev pub set_style_sheet : String → Str → Widget → Widget
set_style_sheet p style = through p (λ a. record a { style_sheet = style })

abbrev pub set_text : String → Str → Widget → Widget
set_text p s = through p (λ a. record a { label_text = s })

abbrev pub set_placeholder_text : String → Str → Widget → Widget
set_placeholder_text p s = through p (λ a. record a { placeholder = s })

abbrev pub set_enabled : String → Bool → Widget → Widget
set_enabled p on = through p (λ a. record a { enabled = on })
