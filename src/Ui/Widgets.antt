-- ===== src/Ui/Widgets.antt =====
-- The widgets under src/client/ui as their constructors make them, and what the slots do to them.
pub mod Literals
pub mod LoginForm
pub mod SplashPage
pub mod Panels
pub mod AppPage
