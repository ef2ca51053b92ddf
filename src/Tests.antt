-- ===== src/Tests.antt =====
-- Runs of the models on concrete inputs, and the theorems applied to them.
pub mod Components
pub mod Machines
pub mod Tools
pub mod Debugger
pub mod FrontEnds
pub mod QuickFrontEnd
