-- ===== src/Results.antt =====
-- deploy/test_results_db/db_handler.py with its tables, `save_dapps_cost_report_to_db` of
-- clickfile.py and utils/version.py. A table is the list of its rows in the order of their
-- insertion; the identifiers are those of its sequence.
pub mod Order
pub mod Version
pub mod Tables
pub mod Save
pub mod Saved
pub mod Replaces
pub mod PreviousTags
pub mod Older
pub mod History
mod Tests
