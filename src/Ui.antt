-- ===== src/Ui.antt =====
-- The client's window, as far as it keeps state: src/client/ui/ContactList.cpp,
-- src/client/ui/MemberList.cpp and the slots of src/client/ui/MainWindow.cpp.
pub mod Chat
pub mod ContactList
pub mod LoginDialog
pub mod MemberList
pub mod MainWindow
pub mod Version
pub mod Config
pub mod Splash
pub mod Widgets
mod Examples
