-- ===== src/Cli.antt =====
-- The commands of clickfile.py that run the tests, choose the images of a deployment, download the
-- contracts of the EVM and the reports' history, run the tools, and print or send the results.
pub mod Words
pub mod Run
pub mod Cases
pub mod Deploy
pub mod Tags
pub mod Shell
pub mod Allure
pub mod Openzeppelin
pub mod Summaries
mod Tests
