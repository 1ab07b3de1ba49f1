-- ===== src/Incidents.antt =====
-- views/incident.py: the workflow of an incident, view by view.
pub mod TakeInCharge
pub mod Resolution
pub mod Disengage
pub mod Reports
pub mod Intake
