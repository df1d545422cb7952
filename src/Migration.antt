-- ===== src/Migration.antt =====
-- src/rosplus/migration.py: the migration of ROS 1 sources.
pub mod Syntax
pub mod Transform
pub mod Tree
pub mod Python
