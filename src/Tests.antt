-- ===== src/Tests.antt =====
-- Runs of the model on concrete inputs, and the theorems at inputs that meet their hypotheses.
mod Routing
mod Parameters
mod Primitives
mod Lists
mod Objects
mod Documents
mod Service
mod Tables
mod References
mod Resolution
mod Messages
mod Owners
mod Nodes
mod Serving
