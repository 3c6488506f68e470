-- ===== src/Models.antt =====
-- utils/models/: the models of the answers of a node. How the library builds a model is its own; here
-- are the validators, the records and the methods that the repository adds.
pub mod Validators
pub mod Results
mod Tests
