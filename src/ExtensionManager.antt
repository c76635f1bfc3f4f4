-- ===== src/ExtensionManager.antt =====
-- rust/dion_extension/src/extension_manager.rs: installing, finding and removing the scripts of
-- extensions, and the repositories that offer them.
pub mod Metadata
pub mod Repos
pub mod Platform
pub mod Install
pub mod Paths
pub mod Confined
pub mod Uninstall
