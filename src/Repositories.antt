-- ===== src/Repositories.antt =====
-- The parser of repositories files, apk-tools/src/repoparser.c. The warnings that it prints are not
-- modelled; the function that receives a repository is a parameter.
pub mod Variables
pub mod Definitions
pub mod Lines
pub mod Entries
