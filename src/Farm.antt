-- ===== src/Farm.antt =====
-- src/run_farm/farm.py: the policy of a campaign.
pub mod Shipment
pub mod Launch
pub mod Shapes
pub mod Campaign
pub mod Govern
pub mod Frame
pub mod Corpus
pub mod Growth
pub mod Dispatch
pub mod Gate
pub mod Plan
pub mod Factory
